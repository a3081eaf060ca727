-- ===== src/Files/Sizes.antt =====
-- What a reading of a file gives: its size and its checksum, within the bound.
use union_core.Prelude.{
  ℕ, zero, suc, ◌≤◌, ◌≡◌, inl, inr, arith, String, Option, some, none, text_key, Result, ok, List,
  [], ◌∷◌, ◌++◌, length, length-append, take, drop, Bool-cases, Option-cases, Result-cases,
}
use union_core.Prelude.Words.{checked_add}
use union_core.Protocol.Schema.{Bytes}
use union_core.Protocol.Ipld.{
  Cid, FileLayout, chunks, file, commit, full, diff, Encoding, is_raw, block_content, decode_node,
}
use union_core.Files.Store.{
  FileStore, block, file_node, tree, read_all, append_leaf, children_of, whole_tree, splice,
  check_file, materialize, read, max_file_bytes,
}
use union_core.Files.Splice.{length-take, length-drop}

-- A loop over children stays within a bound that each reading keeps.
read_all-length :
    (f : Cid → Bytes → Result Bytes) (n : ℕ)
    → ((c : Cid) (out bytes : Bytes) → length out ≤ n → f c out ≡ ok bytes → length bytes ≤ n)
    → (cs : List Cid) (out bytes : Bytes) → length out ≤ n
    → read_all f cs out ≡ ok bytes
    → length bytes ≤ n
unfolding read_all
read_all-length f n keeps [] out bytes h e = ground arith
read_all-length f n keeps (c ∷ cs) out bytes h e = elim (Result-cases (f c out)) [
  | inr (x, bad) ↦ absurd (ground arith)
  | inl (mid, first) ↦
      read_all-length f n keeps cs mid bytes (keeps c out mid h first) (ground arith)
]

module _ (E : Encoding) (st : FileStore) where
  tree-length :
      (left : ℕ) (c : Cid) (out bytes : Bytes)
      → length out ≤ max_file_bytes
      → tree E st left c out ≡ ok bytes
      → length bytes ≤ max_file_bytes
  unfolding tree append_leaf
  tree-length zero c out bytes h e = absurd (ground arith)
  tree-length (suc left) c out bytes h e = elim (Result-cases (block E st c)) [
    | inr (x, bad) ↦ absurd (ground arith)
    | inl (b, found) ↦ elim (Bool-cases (is_raw E c)) [
      | inl raw ↦ elim (Result-cases (block_content E b)) [
        | inr (x, bad) ↦ absurd (ground arith)
        | inl (leaf, holds) ↦ ground (arith, length-append out leaf)
      ]
      | inr dag ↦ elim (Result-cases (decode_node E b)) [
        | inr (x, bad) ↦ absurd (ground arith)
        | inl (node, decoded) ↦ elim (Result-cases (children_of node)) [
          | inr (x, bad) ↦ absurd (ground arith)
          | inl (cs, listed) ↦
              read_all-length (tree E st left) max_file_bytes (tree-length left) cs out bytes h
                (ground arith)
        ]
      ]
    ]
  ]

  splice-length :
      (base : Bytes) (offset remove : ℕ) (link : Cid) (bytes : Bytes)
      → splice E st base offset remove link ≡ ok bytes
      → length bytes ≤ max_file_bytes
  unfolding splice
  splice-length base offset remove link bytes e = elim (Option-cases (checked_add offset remove)) [
    | inl over ↦ absurd (ground arith)
    | inr (ending, at_) ↦ elim (Result-cases (whole_tree E st link)) [
      | inr (x, bad) ↦ absurd (ground arith)
      | inl (new, found) ↦ ground (
        arith,
        length-append (take offset base) (new ++ drop ending base),
        length-append new (drop ending base),
        length-take offset base,
        length-drop ending base,
      )
    ]
  ]

  check_file-ok :
      (size : ℕ) (sum : String) (made bytes : Bytes)
      → check_file E size sum made ≡ ok bytes
      → (made ≡ bytes) × (length bytes ≡ size) × (E.digest bytes ≡ sum)
  unfolding check_file
  check_file-ok size sum made bytes e = (ground arith, ground arith, ground arith)

  materialize-sizes :
      (left : ℕ) (p : Option Cid) (size : ℕ) (sum : String) (depth : ℕ) (layout : FileLayout)
      (bytes : Bytes)
      → materialize E st left (file p size sum depth layout) ≡ ok bytes
      → (length bytes ≡ size) × (E.digest bytes ≡ sum) × (length bytes ≤ max_file_bytes)
  unfolding materialize
  materialize-sizes zero p size sum depth layout bytes e = absurd (ground arith)
  materialize-sizes (suc left) p size sum depth (full root) bytes e =
      elim (Result-cases (whole_tree E st root)) [
        | inr (x, bad) ↦ absurd (ground arith)
        | inl (made, found) ↦
            let (same, a, b) = check_file-ok size sum made bytes (ground arith) in
            let c = tree-length 5 root [] made (omega arith) found in (a, b, ground arith)
      ]
  materialize-sizes (suc left) none size sum depth (diff o r i) bytes e = absurd (ground arith)
  materialize-sizes (suc left) (some p) size sum depth (diff o r i) bytes e =
      elim (Result-cases (file_node E st p)) [
        | inr (x, bad) ↦ absurd (ground arith)
        | inl (above, found) ↦ elim (Result-cases (materialize E st left above)) [
          | inr (x, bad) ↦ absurd (ground arith)
          | inl (base, old) ↦ elim (Result-cases (splice E st base o r i)) [
            | inr (x, bad) ↦ absurd (ground arith)
            | inl (made, joined) ↦
                let (same, a, b) = check_file-ok size sum made bytes (ground arith) in
                let c = splice-length base o r i made joined in (a, b, ground arith)
          ]
        ]
      ]

  pub read-sizes :
      (c : Cid) (bytes : Bytes)
      → read E st c ≡ ok bytes
      → (p : Option Cid) × (size : ℕ) × (sum : String) × (depth : ℕ) × (layout : FileLayout)
        × (file_node E st c ≡ ok (file p size sum depth layout))
        × (length bytes ≡ size)
        × (E.digest bytes ≡ sum)
        × (length bytes ≤ max_file_bytes)
  unfolding read materialize
  read-sizes c bytes e = elim (Result-cases (file_node E st c)) [
    | inr (x, bad) ↦ absurd (ground arith)
    | inl (chunks cs, found) ↦ absurd (ground arith)
    | inl (commit p fs m, found) ↦ absurd (ground arith)
    | inl (file p size sum depth layout, found) ↦
        let (a, b, d) = materialize-sizes 17 p size sum depth layout bytes (ground arith) in
        (p, size, sum, depth, layout, found, a, b, d)
  ]
