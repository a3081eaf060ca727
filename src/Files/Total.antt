-- ===== src/Files/Total.antt =====
-- The tree of a file is always built: its levels end, and each of its blocks fits.
use union_core.Prelude.{
  ℕ, zero, suc, ◌+◌, ◌-◌, ◌≤◌, ◌≡◌, refl, arith, Bool, true, false, ok, List, [], ◌∷◌, ◌++◌, length,
  length-append, leb, all, is_empty, chunks, chunks_from, if◌then◌else◌,
}
use union_core.Protocol.Schema.{Bytes}
use union_core.Protocol.Ipld.{
  Cid, IpldBlock, chunks as node_chunks, Encoding, cid_of, encode, block_bytes,
}
use union_core.Files.Store.{fanout}
use union_core.Files.Version.{chunk_blocks, parent_blocks, build_levels, build_tree}

abbrev pub All {ℓ κ} : {A : Type ℓ} → (A → Type κ) → List A → Type κ
All P [] = Unit
All P (x ∷ xs) = P x × All P xs

All-append {ℓ κ} :
    {A : Type ℓ} (P : A → Type κ) (xs ys : List A) → All P xs → All P ys → All P (xs ++ ys)
All-append P [] ys hx hy = hy
All-append P (x ∷ xs) ys hx hy = (hx.0, All-append P xs ys hx.1 hy)

module _ {ℓ} {A : Type ℓ} (n : ℕ) where
  -- No chunk is longer than the bound.
  chunks_from-fit :
      (room : ℕ) (chunk xs : List A)
      → 1 ≤ n
      → room + length chunk ≡ n
      → all (λ c. leb (length c) n) (chunks_from n room chunk xs) ≡ true
  unfolding chunks_from all
  chunks_from-fit room chunk [] p h = ground arith
  chunks_from-fit zero chunk (x ∷ xs) p h =
      ground (arith, chunks_from-fit (n - 1) (x ∷ []) xs p (omega arith))
  chunks_from-fit (suc room) chunk (x ∷ xs) p h =
      chunks_from-fit room (chunk ++ x ∷ []) xs p (ground (arith, length-append chunk (x ∷ [])))

  chunks_from-length :
      (room : ℕ) (chunk xs : List A) → length (chunks_from n room chunk xs) ≤ 1 + length xs
  unfolding chunks_from
  chunks_from-length room chunk [] = ground arith
  chunks_from-length zero chunk (x ∷ xs) = ground (arith, chunks_from-length (n - 1) (x ∷ []) xs)
  chunks_from-length (suc room) chunk (x ∷ xs) =
      ground (arith, chunks_from-length room (chunk ++ x ∷ []) xs)

  chunks_from-some :
      (room : ℕ) (chunk xs : List A) → 1 ≤ length chunk → 1 ≤ length (chunks_from n room chunk xs)
  unfolding chunks_from
  chunks_from-some room [] [] h = absurd (omega arith)
  chunks_from-some room (c ∷ chunk) [] h = ground arith
  chunks_from-some zero chunk (x ∷ xs) h = ground arith
  chunks_from-some (suc room) chunk (x ∷ xs) h =
      chunks_from-some room (chunk ++ x ∷ []) xs (ground (arith, length-append chunk (x ∷ [])))

  -- Every chunk holds elements of the list only.
  chunks_from-All {κ} :
      (P : A → Type κ) (room : ℕ) (chunk xs : List A)
      → All P chunk
      → All P xs
      → All (All P) (chunks_from n room chunk xs)
  unfolding chunks_from
  chunks_from-All P room [] [] c a = tt
  chunks_from-All P room (y ∷ ys) [] c a = (c, tt)
  chunks_from-All P zero chunk (x ∷ xs) c a =
      (c, chunks_from-All P (n - 1) (x ∷ []) xs (a.0, tt) a.1)
  chunks_from-All P (suc room) chunk (x ∷ xs) c a =
      chunks_from-All P room (chunk ++ x ∷ []) xs (All-append P chunk (x ∷ []) c (a.0, tt)) a.1

abbrev leaves_of : Bytes → List Bytes
leaves_of bytes = if is_empty bytes then [] ∷ [] else chunks block_bytes bytes

leaves_of-fit : (bytes : Bytes) → all (λ c. leb (length c) block_bytes) (leaves_of bytes) ≡ true
unfolding all
leaves_of-fit [] = refl
leaves_of-fit (x ∷ xs) = chunks_from-fit block_bytes block_bytes [] (x ∷ xs) (omega arith) refl

leaves_of-some : (bytes : Bytes) → 1 ≤ length (leaves_of bytes)
unfolding chunks_from
leaves_of-some [] = ground arith
leaves_of-some (x ∷ xs) = chunks_from-some block_bytes 4095 (x ∷ []) xs (omega arith)

module _ (E : Encoding) where
  encode-fits :
      (bytes : Bytes) (dag : Bool)
      → length bytes ≤ block_bytes
      → (b : IpldBlock) × (encode E bytes dag ≡ ok b)
  unfolding encode
  encode-fits bytes dag h =
      (record { cid = cid_of E bytes dag; content = E.base64 bytes }, ground arith)

  -- The id of some block, as `Cid::of` makes it.
  abbrev pub IsMade : Cid → Type 0
  IsMade cid = (bytes : Bytes) × (dag : Bool) × (cid ≡ cid_of E bytes dag)

  encode-IsMade :
      (bytes : Bytes) (dag : Bool) (b : IpldBlock) → encode E bytes dag ≡ ok b → IsMade b.cid
  unfolding encode
  encode-IsMade bytes dag b h = (bytes, dag, ground arith)

  chunk_blocks-total :
      (cs : List Bytes) (blocks : List IpldBlock)
      → all (λ c. leb (length c) block_bytes) cs ≡ true
      → (cids : List Cid) × (more : List IpldBlock) × (chunk_blocks E cs blocks ≡ ok (cids, more))
        × (length cids ≡ length cs)
        × All IsMade cids
  unfolding chunk_blocks all
  chunk_blocks-total [] blocks h = ([], blocks, refl, refl, tt)
  chunk_blocks-total (c ∷ cs) blocks h =
      let (b, made) = encode-fits c false (ground arith) in
      let (cids, more, rest, size, ids) = chunk_blocks-total cs (blocks ++ b ∷ []) (ground arith) in
      (b.cid ∷ cids, more, ground arith, ground arith, (encode-IsMade c false b made, ids))

  module _
      (fits : (g : List Cid)
        → length g ≤ fanout
        → All IsMade g
        → length (E.node_json (node_chunks g)) ≤ block_bytes) where
    parent_blocks-total :
        (gs : List (List Cid)) (blocks : List IpldBlock)
        → all (λ g. leb (length g) fanout) gs ≡ true
        → All (All IsMade) gs
        → (cids : List Cid) × (more : List IpldBlock) × (parent_blocks E gs blocks
            ≡ ok (cids, more))
          × (length cids ≡ length gs)
          × All IsMade cids
    unfolding parent_blocks all
    parent_blocks-total [] blocks h a = ([], blocks, refl, refl, tt)
    parent_blocks-total (g ∷ gs) blocks h a =
        let node : Bytes = E.node_json (node_chunks g) in
        let (b, made) = encode-fits node true (fits g (ground arith) a.0) in
        let (cids, more, rest, size, ids) =
          parent_blocks-total gs (blocks ++ b ∷ []) (ground arith) a.1 in
        (b.cid ∷ cids, more, ground arith, ground arith, (encode-IsMade node true b made, ids))

    -- Each level is shorter than the one below, so the levels end at one link.
    build_levels-total :
        (fuel : ℕ) (links : List Cid) (blocks : List IpldBlock)
        → 1 ≤ length links
        → length links ≤ fuel
        → All IsMade links
        → (root : Cid) × (more : List IpldBlock) × (build_levels E fuel links blocks
            ≡ ok (root, more))
    unfolding build_levels
    build_levels-total fuel [] blocks h k a = absurd (omega arith)
    build_levels-total fuel (root ∷ []) blocks h k a = (root, blocks, refl)
    build_levels-total zero (i ∷ j ∷ links) blocks h k a = absurd (omega arith)
    build_levels-total (suc fuel) (i ∷ j ∷ links) blocks h k a =
        let gs : List (List Cid) = chunks fanout (i ∷ j ∷ links) in
        let (cids, more, made, size, ids) =
          parent_blocks-total gs blocks
            (chunks_from-fit fanout fanout [] (i ∷ j ∷ links) (omega arith) refl)
            (chunks_from-All fanout IsMade fanout [] (i ∷ j ∷ links) tt a) in
        let shorter : length gs ≤ 1 + length links =
          unfold chunks_from in chunks_from-length fanout 22 (i ∷ j ∷ []) links in
        let kept : 1 ≤ length gs =
          unfold chunks_from in chunks_from-some fanout 22 (i ∷ j ∷ []) links (omega arith) in
        let (root, all_, built) =
          build_levels-total fuel cids more (ground arith) (ground arith) ids in
        (root, all_, ground arith)

    -- Where the node of at most 24 links, each the id of some block, fits in one block, the tree of
    -- any bytes is built: the levels end at one root, and no block is too long.
    pub build_tree-total :
        (bytes : Bytes) (blocks : List IpldBlock)
        → (root : Cid) × (more : List IpldBlock) × (build_tree E bytes blocks ≡ ok (root, more))
    unfolding build_tree
    build_tree-total bytes blocks =
        let (cids, more, made, size, ids) =
          chunk_blocks-total (leaves_of bytes) blocks (leaves_of-fit bytes) in
        let (root, all_, built) =
          build_levels-total (length cids) cids more (ground (arith, leaves_of-some bytes))
            (omega arith) ids in
        (root, all_, ground arith)
