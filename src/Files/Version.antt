-- ===== src/Files/Version.antt =====
-- `FileStore::version` of crates/events/src/files.rs: the blocks of a new version of a file.
use union_core.Prelude.{
  ℕ, zero, suc, ◌+◌, ◌-◌, true, false, not, ◌&&◌, Option, none, some, ◌==◌, text_key, nat_key,
  list_key, Result, ok, err, denied, capacity, refuse_if, ◌>>=◌, ◌>>◌, is_empty, ltb, List, [], ◌∷◌,
  ◌++◌, length, take, drop, reverse, filter, chunks, chunks_from, if◌then◌else◌,
}
use union_core.Prelude.Dict
use union_core.Protocol.Schema.{Bytes}
use union_core.Protocol.Ipld.{
  Cid, IpldBlock, FileLayout, chunks as node_chunks, file, full, diff, Encoding, block_bytes,
  raw_block, node_block,
}
use union_core.Files.Store.{
  FileStore, max_file_bytes, max_diff_depth, fanout, read, file_node, depth_of,
}

-- `zip`, `take_while` and `count`
unfoldable pub common_prefix : Bytes → Bytes → ℕ
common_prefix [] ys = 0
common_prefix (x ∷ xs) [] = 0
common_prefix (x ∷ xs) (y ∷ ys) = if x == y then suc (common_prefix xs ys) else 0

-- What replaces what in a version.
pub record Difference : Type 0 where
  pub offset : ℕ
  pub remove : ℕ
  pub insert : Bytes

unfoldable pub difference : Bytes → Bytes → Difference
unfolding common_prefix
difference previous bytes =
    let prefix = common_prefix previous bytes in
    let suffix = common_prefix (reverse (drop prefix previous)) (reverse (drop prefix bytes)) in
    record {
      offset = prefix;
      remove = length previous - prefix - suffix;
      insert = take (length bytes - suffix - prefix) (drop prefix bytes);
    }

module _ (E : Encoding) where
  -- One block for each chunk, and the links in order.
  unfoldable pub chunk_blocks : List Bytes → List IpldBlock → Result (List Cid × List IpldBlock)
  chunk_blocks [] blocks = ok ([], blocks)
  chunk_blocks (c ∷ cs) blocks = do
    block ← raw_block E c
    rest ← chunk_blocks cs (blocks ++ block ∷ [])
    ok (block.cid ∷ rest.0, rest.1)

  -- One node for each group of links.
  unfoldable pub parent_blocks :
      List (List Cid) → List IpldBlock → Result (List Cid × List IpldBlock)
  parent_blocks [] blocks = ok ([], blocks)
  parent_blocks (g ∷ gs) blocks = do
    block ← node_block E (node_chunks g)
    rest ← parent_blocks gs (blocks ++ block ∷ [])
    ok (block.cid ∷ rest.0, rest.1)

  -- `while links.len() > 1`; the last link is the root.
  unfoldable pub build_levels : ℕ → List Cid → List IpldBlock → Result (Cid × List IpldBlock)
  unfolding parent_blocks chunks_from
  build_levels fuel [] blocks = err denied
  build_levels fuel (root ∷ []) blocks = ok (root, blocks)
  build_levels zero (a ∷ b ∷ links) blocks = err denied
  build_levels (suc fuel) (a ∷ b ∷ links) blocks = do
    level ← parent_blocks (chunks fanout (a ∷ b ∷ links)) blocks
    build_levels fuel level.0 level.1

  unfoldable pub build_tree : Bytes → List IpldBlock → Result (Cid × List IpldBlock)
  unfolding chunk_blocks build_levels
  build_tree bytes blocks = do
    leaves ← chunk_blocks (if is_empty bytes then [] ∷ [] else chunks block_bytes bytes) blocks
    build_levels (length leaves.0) leaves.0 leaves.1

  abbrev pub full_layout : Bytes → Result (ℕ × FileLayout × List IpldBlock)
  full_layout bytes = do root ← build_tree bytes []; ok (0, full root.0, root.1)

  -- The layout over a base, which has its depth and its bytes: a difference, unless the chain is long
  -- enough or nothing is shared.
  unfoldable pub diff_layout : ℕ → Bytes → Bytes → Result (ℕ × FileLayout × List IpldBlock)
  unfolding difference build_tree
  diff_layout depth previous bytes =
      let d = difference previous bytes in
      elim (ltb depth max_diff_depth && ltb (length d.insert) (length bytes)) [
        | true ↦ do
          root ← build_tree d.insert []
          ok (depth + 1, diff d.offset d.remove root.0, root.1)
        | false ↦ full_layout bytes
      ]

  -- The node of the file after the blocks of its content; those that the store has are left out.
  unfoldable pub seal :
      FileStore
      → Option Cid
      → Bytes
      → ℕ × FileLayout × List IpldBlock
      → Result (Cid × List IpldBlock)
  seal st parent bytes (depth, layout, blocks) = do
    block ← node_block E (file parent (length bytes) (E.digest bytes) depth layout)
    ok (block.cid, filter (λ b. not (Dict.contains b.cid st.blocks)) (blocks ++ block ∷ []))

  unfoldable pub version : FileStore → Option Cid → Bytes → Result (Cid × List IpldBlock)
  unfolding seal diff_layout
  version st none bytes = do
    refuse_if (ltb max_file_bytes (length bytes)) capacity
    layout ← full_layout bytes
    seal st none bytes layout
  version st (some base) bytes = do
    refuse_if (ltb max_file_bytes (length bytes)) capacity
    previous ← read E st base
    node ← file_node E st base
    depth ← depth_of node
    elim (previous == bytes) [
      | true ↦ ok (base, [])
      | false ↦ do layout ← diff_layout depth previous bytes; seal st (some base) bytes layout
    ]
