-- ===== src/Protocol/Ipld.antt =====
-- Content-addressed blocks (crates/protocol/src/ipld.rs, and their data in crates/protocol/src/lib.rs).
use Prim.Native.String.{len}
use union_core.Prelude.{
  ℕ, ◌+◌, String, Bool, true, false, not, ◌&&◌, ◌||◌, Option, ◌==◌, text_key, nat_key, list_key,
  Result, ok, denied, capacity, protocol, refuse_if, ok_or, ◌>>=◌, ◌>>◌, is_some_and, ltb, List, [],
  ◌∷◌, ◌++◌, length, any, if◌then◌else◌,
}
use union_core.Prelude.Dict.{Dict}
use union_core.Protocol.Schema.{Bytes}

-- A content id is its text; a link is the id that it holds. `parse_cid` passes those of at
-- most 64 bytes only.
abbrev pub Cid : Type 0
Cid = String

pub record IpldBlock : Type 0 where
  pub cid : Cid
  pub content : String

pub data FileLayout : Type 0 where
  full : Cid → FileLayout
  -- offset, removed bytes, inserted tree
  diff : ℕ → ℕ → Cid → FileLayout

pub data FileNode : Type 0 where
  chunks : List Cid → FileNode
  -- parent, size, checksum, depth, layout
  file : Option Cid → ℕ → String → ℕ → FileLayout → FileNode
  -- parent, files, message
  commit : Option Cid → Dict String Cid → String → FileNode

-- The libraries for text encodings, hashes and JSON.
pub record Encoding : Type 0 where
  -- `multibase::decode`: whether the base is `Base32Lower`, and the bytes
  pub decode : String → Option (Bool × Bytes)
  -- `multibase::encode` in `Base32Lower`
  pub base32 : Bytes → String
  -- `multibase::encode` in `Base64` without the first letter, and its reading
  pub base64 : Bytes → String
  pub decode_base64 : String → Option Bytes
  pub sha256 : Bytes → Bytes
  -- `protocol::digest`
  pub digest : Bytes → String
  -- a node as canonical JSON, its reading, and the text of a failure
  pub node_json : FileNode → Bytes
  pub parse_node : Bytes → Option FileNode
  pub parse_error : Bytes → String
  -- `str::from_utf8` succeeds
  pub is_utf8 : Bytes → Bool

abbrev pub block_bytes : ℕ
block_bytes = 4096

-- `BLOCK_BYTES.div_ceil(3) * 4`
abbrev pub block_text_bytes : ℕ
block_text_bytes = 5464

abbrev pub raw_prefix : Bytes
raw_prefix = 1 ∷ 0x55 ∷ 0x12 ∷ 32 ∷ []

abbrev pub dag_json_prefix : Bytes
dag_json_prefix = 1 ∷ 0xa9 ∷ 2 ∷ 0x12 ∷ 32 ∷ []

unfoldable pub starts_with : Bytes → Bytes → Bool
starts_with [] bytes = true
starts_with (p ∷ ps) [] = false
starts_with (p ∷ ps) (b ∷ bytes) = if p == b then starts_with ps bytes else false

module _ (E : Encoding) where
  -- `Cid::from_str`
  unfoldable pub parse_cid : String → Result Cid
  unfolding starts_with
  parse_cid s = do
    refuse_if (ltb 64 (len s)) denied
    decoded ← ok_or (E.decode s) denied
    refuse_if
        (not (decoded.0)
          || not (
              any (λ p. starts_with p decoded.1 && length decoded.1 == length p + 32)
                (raw_prefix ∷ dag_json_prefix ∷ []))
          || not (E.base32 (decoded.1) == s))
        denied
    ok s

  -- `Cid::of`
  unfoldable pub cid_of : Bytes → Bool → Cid
  cid_of bytes dag = E.base32 ((if dag then dag_json_prefix else raw_prefix) ++ E.sha256 bytes)

  unfoldable pub is_raw : Cid → Bool
  unfolding starts_with
  is_raw cid = is_some_and (λ (d : Bool × Bytes). starts_with raw_prefix d.1) (E.decode cid)

  unfoldable pub encode : Bytes → Bool → Result IpldBlock
  unfolding cid_of
  encode bytes dag = do
    refuse_if (ltb block_bytes (length bytes)) capacity
    ok (record { cid = cid_of bytes dag; content = E.base64 bytes })

  -- `IpldBlock::raw` and `IpldBlock::node`
  abbrev pub raw_block : Bytes → Result IpldBlock
  raw_block bytes = encode bytes false

  abbrev pub node_block : FileNode → Result IpldBlock
  node_block node = encode (E.node_json node) true

  unfoldable pub parse : Bytes → Result FileNode
  parse bytes = ok_or (E.parse_node bytes) (protocol (E.parse_error bytes))

  -- A block of a node holds the canonical text of that node.
  unfoldable pub check_node : Cid → Bytes → Result (Unit {0})
  unfolding parse encode
  check_node cid bytes = do
    node ← parse bytes
    block ← node_block node
    refuse_if (not (block.cid == cid)) denied

  -- `IpldBlock::bytes`
  unfoldable pub block_content : IpldBlock → Result Bytes
  unfolding cid_of is_raw check_node
  block_content block = do
    refuse_if (ltb block_text_bytes (len block.content)) capacity
    bytes ← ok_or (E.decode_base64 block.content) denied
    refuse_if
        (ltb block_bytes (length bytes)
          || not (cid_of bytes (not (is_raw block.cid)) == block.cid)
          || not (E.base64 bytes == block.content))
        denied
    if is_raw block.cid then ok tt else check_node block.cid bytes
    ok bytes

  -- `IpldBlock::decode`
  unfoldable pub decode_node : IpldBlock → Result FileNode
  unfolding block_content
  decode_node block = do
    refuse_if (is_raw block.cid) denied
    bytes ← block_content block
    parse bytes
