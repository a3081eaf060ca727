-- ===== src/Protocol/IpldRound.antt =====
-- A block that is made reads back as what it was made of.
use Prim.Native.String.{len}
use union_core.Prelude.{◌≤◌, ◌≡◌, arith, true, false, some, text_key, ok, ◌++◌, length}
use union_core.Protocol.Schema.{Bytes}
use union_core.Protocol.Ipld.{
  IpldBlock, FileNode, Encoding, cid_of, is_raw, encode, parse, check_node, node_block,
  block_content, decode_node, starts_with, raw_prefix, dag_json_prefix, block_bytes,
  block_text_bytes,
}

-- What the encodings promise for the bytes of one block: base 64 and base 32 read back, and
-- the text takes four letters for three bytes.
pub record ReadsBack (E : Encoding) (bytes prefix : Bytes) : Type 0 where
  pub text_back : E.decode_base64 (E.base64 bytes) ≡ some bytes
  pub cid_back :
      E.decode (E.base32 (prefix ++ E.sha256 bytes)) ≡ some (true, prefix ++ E.sha256 bytes)
  pub text_size : length bytes ≤ block_bytes → len (E.base64 bytes) ≤ block_text_bytes

module _ (E : Encoding) where
  is_raw-cid_of :
      (bytes : Bytes) → ReadsBack E bytes raw_prefix → is_raw E (cid_of E bytes false) ≡ true
  unfolding is_raw cid_of starts_with
  is_raw-cid_of bytes laws = ground (arith, laws.cid_back)

  not_raw-cid_of :
      (bytes : Bytes) → ReadsBack E bytes dag_json_prefix → is_raw E (cid_of E bytes true) ≡ false
  unfolding is_raw cid_of starts_with
  not_raw-cid_of bytes laws = ground (arith, laws.cid_back)

  -- A raw block that is made of bytes reads as those bytes.
  pub block_content-encode :
      (bytes : Bytes) (b : IpldBlock)
      → ReadsBack E bytes raw_prefix
      → encode E bytes false ≡ ok b
      → block_content E b ≡ ok bytes
  unfolding encode block_content
  block_content-encode bytes b laws e =
      ground (arith, is_raw-cid_of bytes laws, laws.text_back, laws.text_size)

  -- Where the encodings read the bytes of a node back, and the JSON reads back as the node, the
  -- block that is made of a node is decoded to that node, and its bytes are the node's JSON.
  pub decode_node-node_block :
      (n : FileNode) (b : IpldBlock)
      → ReadsBack E (E.node_json n) dag_json_prefix
      → E.parse_node (E.node_json n) ≡ some n
      → node_block E n ≡ ok b
      → (decode_node E b ≡ ok n) × (block_content E b ≡ ok (E.node_json n))
  unfolding encode block_content decode_node parse check_node
  decode_node-node_block n b laws back e =
      let raw = not_raw-cid_of (E.node_json n) laws in
      let text = laws.text_back in let size = laws.text_size in (ground arith, ground arith)
