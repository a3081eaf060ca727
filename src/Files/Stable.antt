-- ===== src/Files/Stable.antt =====
-- Blocks are never changed: what a store reads, every later store reads the same.
use union_core.Prelude.{
  ℕ, zero, suc, ◌≡◌, inl, inr, arith, String, some, none, text_key, list_key, nat_key, Result, ok,
  List, [], ◌∷◌, Bool-cases, Option-cases, Result-cases,
}
use union_core.Prelude.Dict
use union_core.Protocol.Schema.{Bytes}
use union_core.Protocol.Ipld.{
  Cid, IpldBlock, FileNode, chunks, file, commit, full, diff, Encoding, is_raw, decode_node,
}
use union_core.Files.Store.{
  FileStore, block, node_at, file_node, tree, read_all, children_of, whole_tree, splice,
  materialize, read,
}

-- The later store has every block of the earlier one, unchanged.
unfoldable pub Keeps : FileStore → FileStore → Type 0
Keeps st t =
    (c : Cid) (x : String) → Dict.lookup c st.blocks ≡ some x → Dict.lookup c t.blocks ≡ some x

pub Keeps-refl : (st : FileStore) → Keeps st st
unfolding Keeps
Keeps-refl st c x h = h

pub Keeps-trans : (a b c : FileStore) → Keeps a b → Keeps b c → Keeps a c
unfolding Keeps
Keeps-trans a b c f g i x h = g i x (f i x h)

module _ (E : Encoding) (st t : FileStore) (k : Keeps st t) where
  block-Keeps : (c : Cid) (b : IpldBlock) → block E st c ≡ ok b → block E t c ≡ ok b
  unfolding block Keeps
  block-Keeps c b h = elim (Option-cases (Dict.lookup c st.blocks)) [
    | inl missing ↦ absurd (ground arith)
    | inr (x, found) ↦ let later = k c x found in ground arith
  ]

  pub node_at-Keeps : (c : Cid) (n : FileNode) → node_at E st c ≡ ok n → node_at E t c ≡ ok n
  unfolding node_at
  node_at-Keeps c n h = elim (Result-cases (block E st c)) [
    | inl (b, found) ↦ let later = block-Keeps c b found in ground arith
    | inr (e, bad) ↦ absurd (ground arith)
  ]

  file_node-Keeps : (c : Cid) (n : FileNode) → file_node E st c ≡ ok n → file_node E t c ≡ ok n
  unfolding file_node
  file_node-Keeps c n h = elim (Result-cases (node_at E st c)) [
    | inl (m, found) ↦ let later = node_at-Keeps c m found in ground arith
    | inr (e, bad) ↦ absurd (ground arith)
  ]

  -- The loop over children reads the same, where each reading does.
  read_all-Keeps :
      (f g : Cid → Bytes → Result Bytes)
      → ((c : Cid) (out bytes : Bytes) → f c out ≡ ok bytes → g c out ≡ ok bytes)
      → (cs : List Cid) (out bytes : Bytes) → read_all f cs out ≡ ok bytes
      → read_all g cs out ≡ ok bytes
  unfolding read_all
  read_all-Keeps f g same [] out bytes h = h
  read_all-Keeps f g same (c ∷ cs) out bytes h = elim (Result-cases (f c out)) [
    | inl (mid, first) ↦
        let later = same c out mid first in
        let rest = read_all-Keeps f g same cs mid bytes (ground arith) in ground arith
    | inr (e, bad) ↦ absurd (ground arith)
  ]

  tree-Keeps :
      (left : ℕ) (c : Cid) (out bytes : Bytes)
      → tree E st left c out ≡ ok bytes
      → tree E t left c out ≡ ok bytes
  unfolding tree
  tree-Keeps zero c out bytes h = absurd (ground arith)
  tree-Keeps (suc left) c out bytes h = elim (Result-cases (block E st c)) [
    | inr (e, bad) ↦ absurd (ground arith)
    | inl (b, found) ↦
        let later = block-Keeps c b found in
        elim (Bool-cases (is_raw E c)) [
          | inl raw ↦ ground arith
          | inr dag ↦ elim (Result-cases (decode_node E b)) [
            | inr (e, bad) ↦ absurd (ground arith)
            | inl (node, read_) ↦ elim (Result-cases (children_of node)) [
              | inr (e, bad) ↦ absurd (ground arith)
              | inl (cs, listed) ↦
                  let rest =
                    read_all-Keeps (tree E st left) (tree E t left) (tree-Keeps left) cs out bytes
                      (ground arith) in
                  ground arith
            ]
          ]
        ]
  ]

  splice-Keeps :
      (base : Bytes) (offset remove : ℕ) (link : Cid) (bytes : Bytes)
      → splice E st base offset remove link ≡ ok bytes
      → splice E t base offset remove link ≡ ok bytes
  unfolding splice
  splice-Keeps base offset remove link bytes h = elim (Result-cases (whole_tree E st link)) [
    | inr (e, bad) ↦ absurd (ground arith)
    | inl (r, found) ↦ let later = tree-Keeps 5 link [] r found in ground arith
  ]

  materialize-Keeps :
      (left : ℕ) (n : FileNode) (bytes : Bytes)
      → materialize E st left n ≡ ok bytes
      → materialize E t left n ≡ ok bytes
  unfolding materialize
  materialize-Keeps zero n bytes h = absurd (ground arith)
  materialize-Keeps (suc left) (chunks cs) bytes h = absurd (ground arith)
  materialize-Keeps (suc left) (commit p fs m) bytes h = absurd (ground arith)
  materialize-Keeps (suc left) (file p size sum depth (full root)) bytes h =
      elim (Result-cases (whole_tree E st root)) [
        | inr (e, bad) ↦ absurd (ground arith)
        | inl (r, found) ↦ let later = tree-Keeps 5 root [] r found in ground arith
      ]
  materialize-Keeps (suc left) (file none size sum depth (diff o r i)) bytes h =
      absurd (ground arith)
  materialize-Keeps (suc left) (file (some p) size sum depth (diff o r i)) bytes h =
      elim (Result-cases (file_node E st p)) [
        | inr (e, bad) ↦ absurd (ground arith)
        | inl (above, found) ↦ elim (Result-cases (materialize E st left above)) [
          | inr (e, bad) ↦ absurd (ground arith)
          | inl (base, made) ↦ elim (Result-cases (splice E st base o r i)) [
            | inr (e, bad) ↦ absurd (ground arith)
            | inl (new, joined) ↦
                let a = file_node-Keeps p above found in
                let b = materialize-Keeps left above base made in
                let c = splice-Keeps base o r i new joined in ground arith
          ]
        ]
      ]

  pub read-Keeps : (c : Cid) (bytes : Bytes) → read E st c ≡ ok bytes → read E t c ≡ ok bytes
  unfolding read
  read-Keeps c bytes h = elim (Result-cases (file_node E st c)) [
    | inr (e, bad) ↦ absurd (ground arith)
    | inl (n, found) ↦
        let a = file_node-Keeps c n found in
        let b = materialize-Keeps 17 n bytes (ground arith) in ground arith
  ]
