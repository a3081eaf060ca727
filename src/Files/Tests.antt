-- ===== src/Files/Tests.antt =====
-- A store of one file in two commits, under toy encodings.
use union_core.Prelude.{
  List, ℕ, zero, suc, ◌*◌, length-append, length, ◌≤◌, nat_key, list_key, text_key, ℕ_discrete,
  String-discrete, list-discrete, String, Bool, true, false, Option, some, none, ◌==◌, ◌≡◌, refl,
  arith, [], ◌∷◌, ◌++◌, ok, if◌then◌else◌, for_each, text_less, any, all,
}
use union_core.Prelude.Dict
use union_core.Protocol.Schema.{Bytes}
use union_core.Protocol.Text.{validate_identifier, codes}
use union_core.Protocol.Ipld.{
  Cid, IpldBlock, FileNode, FileLayout, node_block, chunks, file, commit, full, Encoding, is_raw,
  starts_with, cid_of, parse, check_node, block_content, decode_node, encode, raw_prefix,
  dag_json_prefix,
}
use union_core.Files.Store.{
  FileStore, whole_tree, block, node_at, file_node, only_file, tree, read_all, append_leaf, splice,
  check_file, materialize, read, validate, check_layout, check_link, check_path, bad_path,
  split_path, add_block, put, advance, commit_parent, stored_bytes, Head, max_store_bytes,
  max_branches, max_file_bytes,
}
use union_core.Files.Total.{All, IsMade, build_tree-total}
use union_core.Files.Version.{build_tree, common_prefix, difference}
use union_core.Files.Splice.{splice-difference}
use union_core.Files.History.{
  StoreAction, put_block, move, Later, now, after, Ancestor, run, read-Later, head-Later,
  Later-IsBounded,
}
use union_core.Protocol.IpldRound.{ReadsBack, decode_node-node_block}
use union_core.Prelude.Words.{checked_add}

abbrev leaf : Bytes
leaf = 1 ∷ 2 ∷ 3 ∷ []

abbrev readme : FileNode
readme = file none 3 "sum" 0 (full "l")

abbrev first : FileNode
first = commit none (("readme", "f") ∷ []) "first"

abbrev second : FileNode
second = commit (some "c1") [] "second"

abbrev node_text : FileNode → Bytes
node_text (chunks cs) = 9 ∷ []
node_text (file p s d n l) = 10 ∷ []
node_text (commit none fs m) = 11 ∷ []
node_text (commit (some p) fs m) = 12 ∷ []

abbrev node_of : Bytes → Option FileNode
node_of [] = none
node_of (b ∷ bs) =
    if b == 10
    then some readme
    else if b == 11
    then some first
    else if b == 12
    then some second
    else none

abbrev name_of : Bytes → Cid
name_of bytes =
    if bytes == raw_prefix ++ leaf
    then "l"
    else if bytes == dag_json_prefix ++ 10 ∷ []
    then "f"
    else if bytes == dag_json_prefix ++ 11 ∷ []
    then "c1"
    else if bytes == dag_json_prefix ++ 12 ∷ []
    then "c2"
    else "x"

abbrev named : Cid → Option (Bool × Bytes)
named c =
    if c == "l"
    then some (true, raw_prefix ++ leaf)
    else if c == "f"
    then some (true, dag_json_prefix ++ 10 ∷ [])
    else if c == "c1"
    then some (true, dag_json_prefix ++ 11 ∷ [])
    else if c == "c2"
    then some (true, dag_json_prefix ++ 12 ∷ [])
    else none

abbrev text_of : Bytes → String
text_of bytes =
    if bytes == leaf
    then "AQID"
    else if bytes == 10 ∷ []
    then "Cg=="
    else if bytes == 11 ∷ []
    then "Cw=="
    else "DA=="

abbrev bytes_of : String → Option Bytes
bytes_of s =
    if s == "AQID"
    then some leaf
    else if s == "Cg=="
    then some (10 ∷ [])
    else if s == "Cw=="
    then some (11 ∷ [])
    else if s == "DA=="
    then some (12 ∷ [])
    else none

abbrev pub toy : Encoding
toy = record {
  decode = named;
  base32 = name_of;
  base64 = text_of;
  decode_base64 = bytes_of;
  sha256 = λ bytes. bytes;
  digest = λ bytes. "sum";
  node_json = node_text;
  parse_node = node_of;
  parse_error = λ bytes. "bad node";
  is_utf8 = λ bytes. true;
}

abbrev held : FileStore
held = record {
  blocks = ("l", "AQID") ∷ ("f", "Cg==") ∷ ("c1", "Cw==") ∷ [];
  branches = ("main", record { commit = "c1"; club = "chess"; author = "ann1"; revision = 1 }) ∷ [];
}

unfoldable pub evaluation : Unit {0}
unfolding read materialize check_file file_node node_at only_file block tree append_leaf read_all
    is_raw starts_with block_content decode_node cid_of check_node parse encode validate
    check_layout check_link check_path bad_path split_path add_block put advance commit_parent
    stored_bytes validate_identifier run splice common_prefix difference checked_add for_each any
    all Dict.lookup Dict.insert Dict.replace Dict.place String-discrete list-discrete text_less
    ℕ_discrete
evaluation = tt

reads : read toy held "f" ≡ ok leaf
unfolding evaluation
reads = refl

abbrev grown : FileStore
grown = record held {
  blocks = ("c1", "Cw==") ∷ ("c2", "DA==") ∷ ("f", "Cg==") ∷ ("l", "AQID") ∷ [];
}

abbrev started : FileStore
started = record held { blocks = ("c1", "Cw==") ∷ ("f", "Cg==") ∷ ("l", "AQID") ∷ [] }

abbrev moved : FileStore
moved = record grown {
  branches = ("main", record { commit = "c2"; club = "chess"; author = "bob1"; revision = 7 }) ∷ [];
}

abbrev new_commit : StoreAction toy
new_commit = put_block (record { cid = "c2"; content = "DA==" })

abbrev to_second : StoreAction toy
to_second = move "main" (some "c1") "c2" "chess" "bob1" 7

grown-run : run toy started new_commit ≡ ok grown
unfolding evaluation
grown-run = refl

moved-run : run toy grown to_second ≡ ok moved
unfolding evaluation
moved-run = refl

history : Later toy started moved
history = after (after now new_commit grown-run) to_second moved-run

started-read : read toy started "f" ≡ ok leaf
unfolding evaluation
started-read = refl

read-Later_example :
    (read toy moved "f" ≡ ok leaf)
    × (p : Option Cid) × (size : ℕ) × (sum : String) × (depth : ℕ) × (layout : FileLayout)
    × (file_node toy started "f" ≡ ok (file p size sum depth layout))
    × (length leaf ≡ size)
    × (toy.digest leaf ≡ sum)
    × (length leaf ≤ max_file_bytes)
read-Later_example = read-Later toy started moved "f" leaf history started-read

abbrev at_first : Head
at_first = record { commit = "c1"; club = "chess"; author = "ann1"; revision = 1 }

main-lookup : Dict.lookup "main" started.branches ≡ some at_first
unfolding evaluation
main-lookup = refl

head-Later_example :
    (k : Head) × (Dict.lookup "main" moved.branches ≡ some k)
    × (k.club ≡ "chess")
    × Ancestor toy moved "c1" k.commit
head-Later_example = head-Later toy started moved "main" at_first history main-lookup

started-bounds :
    (stored_bytes started.blocks ≤ max_store_bytes) × (length started.branches ≤ max_branches)
unfolding evaluation
started-bounds = (ground arith, ground arith)

Later-IsBounded_example :
    (stored_bytes moved.blocks ≤ max_store_bytes) × (length moved.branches ≤ max_branches)
Later-IsBounded_example = Later-IsBounded toy started moved history started-bounds

abbrev readme_block : IpldBlock
readme_block = record { cid = "f"; content = "Cg==" }

readme-ReadsBack : ReadsBack toy (toy.node_json readme) dag_json_prefix
unfolding evaluation
readme-ReadsBack = record { text_back = refl; cid_back = refl; text_size = λ h. ground arith }

readme-encode : node_block toy readme ≡ ok readme_block
unfolding evaluation
readme-encode = refl

decode_node-node_block_example :
    (decode_node toy readme_block ≡ ok readme) × (block_content toy readme_block ≡ ok (10 ∷ []))
decode_node-node_block_example =
    decode_node-node_block toy readme readme_block readme-ReadsBack (unfold evaluation in refl)
      readme-encode

-- The leaf is what replaces the middle of a longer text.
abbrev longer : Bytes
longer = 7 ∷ 9 ∷ 8 ∷ []

abbrev edited : Bytes
edited = 7 ∷ 1 ∷ 2 ∷ 3 ∷ 8 ∷ []

inserted-tree : whole_tree toy started "l" ≡ ok (difference longer edited).insert
unfolding evaluation
inserted-tree = refl

splice-difference_example :
    splice toy started longer
      (difference longer edited).offset
      (difference longer edited).remove
      "l"
    ≡ ok edited
splice-difference_example =
    splice-difference toy started longer edited "l" (ground arith) (ground arith) inserted-tree

-- Ids of seven letters, and nodes that spell out their links.
abbrev short_id : Bytes → String
short_id bytes = if starts_with raw_prefix bytes then "bafkraw" else "bafynode"

abbrev spelled : List Cid → Bytes
spelled [] = []
spelled (c ∷ cs) = 44 ∷ (codes c ++ spelled cs)

abbrev spelling : FileNode → Bytes
spelling (chunks cs) = 91 ∷ spelled cs
spelling (file p s d n l) = 10 ∷ []
spelling (commit p fs m) = 11 ∷ []

abbrev spelled_out : Encoding
spelled_out = record toy { base32 = short_id; node_json = spelling }

short_id-length : (bytes : Bytes) (dag : Bool) → length (codes (cid_of spelled_out bytes dag)) ≤ 8
unfolding cid_of starts_with ℕ_discrete
short_id-length bytes true = omega arith
short_id-length bytes false = omega arith

spelled-length : (g : List Cid) → All (IsMade spelled_out) g → length (spelled g) ≤ 9 * length g
spelled-length [] a = omega arith
spelled-length (c ∷ cs) ((bytes, dag, made), a) =
    ground
      (arith, length-append (codes c) (spelled cs), short_id-length bytes dag, spelled-length cs a)

-- A file of three leaves, under one node.
unfoldable sevens : ℕ → Bytes
sevens zero = []
sevens (suc n) = 7 ∷ sevens n

build_tree-total_example :
    (root : Cid) × (more : List IpldBlock) × (build_tree spelled_out (sevens 9000) []
      ≡ ok (root, more))
build_tree-total_example =
    build_tree-total spelled_out (λ g few a. ground (arith, spelled-length g a)) (sevens 9000) []
