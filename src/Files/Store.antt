-- ===== src/Files/Store.antt =====
-- `FileStore` of crates/events/src/files.rs: reading, adding a block, moving a head.
use Prim.Native.String.{len}
use union_core.Prelude.{
  ℕ, zero, suc, ◌+◌, ◌-◌, ◌*◌, ◌/◌, String, Bool, true, false, not, ◌&&◌, ◌||◌, Option, none, some,
  ◌==◌, text_key, nat_key, list_key, Result, ok, err, denied, not_found, capacity, refuse_if, ok_or,
  for_each, ◌>>=◌, ◌>>◌, is_some, is_some_and, is_empty, ltb, leb, List, [], ◌∷◌, ◌++◌, length,
  take, drop, any, if◌then◌else◌,
}
use union_core.Prelude.Dict
use union_core.Prelude.Dict.{Dict}
use union_core.Prelude.Words.{checked_add}
use union_core.Protocol.Schema.{Bytes}
use union_core.Protocol.Text.{validate_identifier, is_control, codes}
use union_core.Protocol.Ipld.{
  Cid, IpldBlock, FileNode, FileLayout, chunks, file, commit, full, diff, Encoding, is_raw,
  block_content, decode_node,
}

abbrev pub max_file_bytes : ℕ
max_file_bytes = 2 * 1024 * 1024

abbrev pub max_store_bytes : ℕ
max_store_bytes = 4 * 1024 * 1024

abbrev pub fanout : ℕ
fanout = 24

abbrev pub max_commit_paths : ℕ
max_commit_paths = 24

abbrev pub max_diff_depth : ℕ
max_diff_depth = 16

abbrev pub max_tree_depth : ℕ
max_tree_depth = 4

abbrev pub max_branches : ℕ
max_branches = 256

pub record Head : Type 0 where
  pub commit : Cid
  pub club : String
  pub author : String
  pub revision : ℕ

pub record FileStore : Type 0 where
  pub blocks : Dict Cid String
  pub branches : Dict String Head

-- What the store holds in all, in bytes of its texts.
unfoldable pub stored_bytes : Dict Cid String → ℕ
stored_bytes [] = 0
stored_bytes ((cid, content) ∷ m) = len cid + len content + stored_bytes m

-- `path.split('/')`, on the characters
unfoldable pub split_path : List ℕ → List (List ℕ)
split_path [] = [] ∷ []
split_path (c ∷ cs) = elim (split_path cs) [
  | [] ↦ (c ∷ []) ∷ []
  | p ∷ ps ↦ if c == b'/' then [] ∷ p ∷ ps else (c ∷ p) ∷ ps
]

-- The path is empty, too long, or could leave its directory.
unfoldable pub bad_path : String → Bool
unfolding split_path is_control
bad_path path =
    is_empty (codes path)
    || ltb 256 (len path)
    || any (λ c. c == b'\\') (codes path)
    || any is_control (codes path)
    || any (λ p. is_empty p || p == b'.' ∷ [] || p == b'.' ∷ b'.' ∷ []) (split_path (codes path))

-- `==` on optional ids
abbrev pub same_cid : Option Cid → Option Cid → Bool
same_cid none none = true
same_cid none (some b) = false
same_cid (some a) none = false
same_cid (some a) (some b) = a == b

-- `FileStore::commit`: the parent of a commit, or a refusal for another node
unfoldable pub commit_parent : FileNode → Result (Option Cid)
commit_parent (chunks children) = err denied
commit_parent (file parent size checksum depth layout) = err denied
commit_parent (commit parent files message) = ok parent

-- `FileStore::file_node`
unfoldable pub only_file : FileNode → Result FileNode
only_file (chunks children) = err denied
only_file (file parent size checksum depth layout) = ok (file parent size checksum depth layout)
only_file (commit parent files message) = err denied

abbrev pub children_of : FileNode → Result (List Cid)
children_of (chunks children) = ok children
children_of (file parent size checksum depth layout) = err denied
children_of (commit parent files message) = err denied

abbrev pub depth_of : FileNode → Result ℕ
depth_of (chunks children) = err denied
depth_of (file parent size checksum depth layout) = ok depth
depth_of (commit parent files message) = err denied

-- The leaf of a tree, after what is read so far.
unfoldable pub append_leaf : Bytes → Bytes → Result Bytes
append_leaf out bytes = do
  refuse_if (ltb max_file_bytes (length out + length bytes)) capacity
  ok (out ++ bytes)

-- The loop over the children, by what reads one.
unfoldable pub read_all : (Cid → Bytes → Result Bytes) → List Cid → Bytes → Result Bytes
read_all read [] out = ok out
read_all read (c ∷ cs) out = read c out >>= λ bytes. read_all read cs bytes

unfoldable pub check_link : (Cid → Result (Unit {0})) → Option Cid → Result (Unit {0})
check_link check none = ok tt
check_link check (some cid) = check cid

module _ (E : Encoding) where
  unfoldable pub block : FileStore → Cid → Result IpldBlock
  block st cid = do
    content ← ok_or (Dict.lookup cid st.blocks) not_found
    let found : IpldBlock = record { cid = cid; content = content }
    bytes ← block_content E found
    ok found

  unfoldable pub node_at : FileStore → Cid → Result FileNode
  unfolding block
  node_at st cid = do found ← block st cid; decode_node E found

  unfoldable pub file_node : FileStore → Cid → Result FileNode
  unfolding node_at only_file
  file_node st cid = do node ← node_at st cid; only_file node

  -- `FileStore::tree` with `left` levels left: at depth d, those are `max_tree_depth + 1 - d`.
  unfoldable pub tree : FileStore → ℕ → Cid → Bytes → Result Bytes
  unfolding append_leaf read_all
  tree st zero cid out = err capacity
  tree st (suc left) cid out = do
    found ← block st cid
    elim (is_raw E cid) [
      | true ↦ do bytes ← block_content E found; append_leaf out bytes
      | false ↦ do
        node ← decode_node E found
        children ← children_of node
        read_all (tree st left) children out
    ]

  abbrev pub whole_tree : FileStore → Cid → Result Bytes
  whole_tree st cid = tree st (max_tree_depth + 1) cid []

  -- The bytes that a difference makes of its base.
  unfoldable pub splice : FileStore → Bytes → ℕ → ℕ → Cid → Result Bytes
  splice st base offset remove insert = do
    ending ← ok_or (checked_add offset remove) capacity
    refuse_if (ltb (length base) ending || ltb ending offset) denied
    replacement ← whole_tree st insert
    refuse_if (ltb max_file_bytes (length base - (ending - offset) + length replacement)) capacity
    ok (take offset base ++ (replacement ++ drop ending base))

  -- The test at the end of `materialize`.
  unfoldable pub check_file : ℕ → String → Bytes → Result Bytes
  check_file size checksum bytes = do
    refuse_if (not (length bytes == size) || not (E.digest bytes == checksum)) denied
    ok bytes

  -- `FileStore::materialize`; at depth d, `left` is `max_diff_depth + 1 - d`.
  unfoldable pub materialize : FileStore → ℕ → FileNode → Result Bytes
  unfolding tree splice check_file file_node
  materialize st zero node = err capacity
  materialize st (suc left) (chunks children) = err denied
  materialize st (suc left) (commit parent files message) = err denied
  materialize st (suc left) (file parent size checksum depth (full root)) = do
    bytes ← whole_tree st root
    check_file size checksum bytes
  materialize st (suc left) (file parent size checksum depth (diff offset remove insert)) = do
    above ← ok_or parent denied
    node ← file_node st above
    base ← materialize st left node
    bytes ← splice st base offset remove insert
    check_file size checksum bytes

  unfoldable pub read : FileStore → Cid → Result Bytes
  unfolding materialize
  read st cid = do node ← file_node st cid; materialize st (max_diff_depth + 1) node

  -- A whole file has depth 0, a difference one more than its base.
  unfoldable pub check_layout : FileStore → Option Cid → ℕ → FileLayout → Result (Unit {0})
  check_layout st parent depth (full root) = refuse_if (not (depth == 0)) denied
  check_layout st parent depth (diff offset remove insert) = do
    above ← ok_or parent denied
    base ← file_node st above
    d ← depth_of base
    refuse_if (not (d + 1 == depth)) denied

  abbrev pub is_file : FileStore → Cid → Result (Unit {0})
  is_file st cid = file_node st cid >>= λ _. ok tt

  abbrev pub is_commit : FileStore → Cid → Result (Unit {0})
  is_commit st cid = node_at st cid >>= λ node. commit_parent node >>= λ _. ok tt

  unfoldable pub check_path : FileStore → String × Cid → Result (Unit {0})
  unfolding bad_path
  check_path st (path, cid) = do refuse_if (bad_path path) denied; is_file st cid

  unfoldable pub validate : FileStore → FileNode → Result (Unit {0})
  unfolding check_layout check_link check_path
  validate st (chunks children) = do
    refuse_if (is_empty children || ltb fanout (length children)) denied
    bytes ← read_all (tree st max_tree_depth) children []
    ok tt
  validate st (file parent size checksum depth layout) = do
    refuse_if (ltb max_file_bytes size || ltb max_diff_depth depth) capacity
    check_link (is_file st) parent
    bytes ← materialize st (max_diff_depth + 1) (file parent size checksum depth layout)
    refuse_if (not (length bytes == size) || not (E.digest bytes == checksum)) denied
    check_layout st parent depth layout
  validate st (commit parent files message) = do
    refuse_if (ltb max_commit_paths (length files) || ltb 1024 (len message)) capacity
    check_link (is_commit st) parent
    for_each (check_path st) files

  -- A block that is new, within the room that is left.
  unfoldable pub add_block : FileStore → IpldBlock → Result FileStore
  unfolding stored_bytes validate
  add_block st b = do
    refuse_if
        (leb (max_store_bytes / 32) (length st.blocks)
          || ltb max_store_bytes (stored_bytes st.blocks + len b.content + len b.cid))
        capacity
    if is_raw E b.cid then ok tt else (decode_node E b >>= validate st)
    ok (record st { blocks = Dict.insert b.cid b.content st.blocks })

  unfoldable pub put : FileStore → IpldBlock → Result FileStore
  unfolding add_block
  put st b = do
    bytes ← block_content E b
    elim (Dict.lookup b.cid st.blocks) [
      | some old ↦ if old == b.content then ok st else err denied
      | none ↦ add_block st b
    ]

  unfoldable pub advance :
      FileStore → String → Option Cid → Cid → String → String → ℕ → Result FileStore
  unfolding node_at commit_parent
  advance st branch expected head club author revision = do
    validate_identifier branch
    let old = Dict.lookup branch st.branches
    refuse_if
        (not (same_cid (elim old [ none ↦ none | some h ↦ some h.commit ]) expected)
          || is_some_and (λ h. not (h.club == club)) old)
        denied
    refuse_if (not (is_some old) && leb max_branches (length st.branches)) capacity
    node ← node_at st head
    parent ← commit_parent node
    refuse_if (not (same_cid parent expected)) denied
    ok (record st {
      branches =
          Dict.insert branch
            (record { commit = head; club = club; author = author; revision = revision })
            st.branches;
    })
