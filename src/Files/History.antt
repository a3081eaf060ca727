-- ===== src/Files/History.antt =====
-- Histories of a store: blocks stay, the store stays within its bound, and a branch only moves forward.
use Prim.Native.String.{len}
use union_core.Prelude.{
  ℕ, ◌+◌, ◌≤◌, ◌<◌, ◌≡◌, ◌⊎◌, inl, inr, refl, sym, subst, arith, String, true, false, Option, some,
  none, ◌==◌, text_key, Result, ok, [], ◌∷◌, length, Bool-cases, Option-cases, Result-cases,
}
use union_core.Prelude.Dict
use union_core.Prelude.Dict.{Dict}
use union_core.Protocol.Schema.{Bytes}
use union_core.Protocol.Ipld.{FileLayout, file, Cid, IpldBlock, FileNode, Encoding}
use union_core.Files.Store.{
  file_node, max_file_bytes, FileStore, Head, node_at, put, add_block, advance, commit_parent,
  stored_bytes, read, max_store_bytes, max_branches, same_cid,
}
use union_core.Files.Sizes.{read-sizes}
use union_core.Files.Stable.{Keeps, Keeps-refl, Keeps-trans, node_at-Keeps, read-Keeps}
use union_core.Protocol.Text.{validate_identifier}

stored_bytes-place :
    (c : Cid) (x : String) (m : Dict Cid String)
    → stored_bytes (Dict.place c x m) ≡ len c + len x + stored_bytes m
unfolding stored_bytes Dict.place
stored_bytes-place c x [] = refl
stored_bytes-place c x ((d, y) ∷ m) = ground (arith, stored_bytes-place c x m)

stored_bytes-insert :
    (c : Cid) (x : String) (m : Dict Cid String)
    → Dict.contains c m ≡ false
    → stored_bytes (Dict.insert c x m) ≡ len c + len x + stored_bytes m
unfolding Dict.insert
stored_bytes-insert c x m h = ground (arith, stored_bytes-place c x m)

same_cid-true : (a b : Option Cid) → same_cid a b ≡ true → a ≡ b
same_cid-true none none h = refl
same_cid-true none (some b) h = absurd (ground arith)
same_cid-true (some a) none h = absurd (ground arith)
same_cid-true (some a) (some b) h = ground arith

module _ (E : Encoding) where
  -- What adding a block does: it is there, or it comes within the bound.
  put_lem :
      (st : FileStore) (b : IpldBlock) (t : FileStore)
      → put E st b ≡ ok t
      → (t ≡ st)
        ⊎ ((Dict.contains b.cid st.blocks ≡ false)
            × (stored_bytes t.blocks ≤ max_store_bytes)
            × (t.blocks ≡ Dict.insert b.cid b.content st.blocks)
            × (t.branches ≡ st.branches))
  unfolding put add_block
  put_lem st b t h = elim (Option-cases (Dict.lookup b.cid st.blocks)) [
    | inr (old, found) ↦ inl (ground arith)
    | inl new ↦ inr (
      ground arith,
      ground (arith, stored_bytes-insert b.cid b.content st.blocks),
      ground arith,
      ground arith,
    )
  ]

  put-Keeps : (st : FileStore) (b : IpldBlock) (t : FileStore) → put E st b ≡ ok t → Keeps st t
  put-Keeps st b t h = elim (put_lem st b t h) [
    | inl same ↦ subst (Keeps st) (sym same) (Keeps-refl st)
    | inr (new, fits, blocks, branches) ↦
        unfold Keeps in
        λ c x f. ground (arith, blocks, new, f, Dict.lookup-insert c b.cid b.content st.blocks)
  ]

  -- What moving a branch does: it was at the expected commit, and goes to a child of that.
  advance_lem :
      (st : FileStore) (branch : String) (expected : Option Cid) (head : Cid) (club author : String)
      (revision : ℕ) (t : FileStore)
      → advance E st branch expected head club author revision ≡ ok t
      → (t.blocks ≡ st.blocks)
        × (t.branches
            ≡ Dict.insert branch
                (record { commit = head; club = club; author = author; revision = revision })
                st.branches)
        × ((Dict.lookup branch st.branches ≡ none)
              × (expected ≡ none)
              × (length st.branches < max_branches)
            ⊎ ((h : Head) × (Dict.lookup branch st.branches ≡ some h)
                × (expected ≡ some h.commit)
                × (h.club ≡ club)))
        × ((n : FileNode) × (node_at E st head ≡ ok n) × (commit_parent n ≡ ok expected))
  unfolding advance
  advance_lem st branch expected head club author revision t h =
      elim (Result-cases (validate_identifier branch)) [
        | inr (e, bad) ↦ absurd (ground arith)
        | inl (u, valid) ↦ elim (Result-cases (node_at E st head)) [
          | inr (e, bad) ↦ absurd (ground arith)
          | inl (n, found) ↦ elim (Result-cases (commit_parent n)) [
            | inr (e, bad) ↦ absurd (ground arith)
            | inl (p, above) ↦ elim (Option-cases (Dict.lookup branch st.branches)) [
              | inl new ↦
                  let a = same_cid-true none expected (ground arith) in
                  let b = same_cid-true p expected (ground arith) in
                  (
                    ground arith,
                    ground arith,
                    inl (new, ground arith, ground arith),
                    (n, found, ground arith),
                  )
              | inr (held, old) ↦
                  let a = same_cid-true (some held.commit) expected (ground arith) in
                  let b = same_cid-true p expected (ground arith) in
                  (
                    ground arith,
                    ground arith,
                    inr (held, old, ground arith, ground arith),
                    (n, found, ground arith),
                  )
            ]
          ]
        ]
      ]

  -- `PutBlock` and `CommitFiles`, by what they do to the store.
  pub data StoreAction : Type 0 where
    put_block : IpldBlock → StoreAction
    move : String → Option Cid → Cid → String → String → ℕ → StoreAction

  unfoldable pub run : FileStore → StoreAction → Result FileStore
  unfolding put advance
  run st (put_block b) = put E st b
  run st (move branch expected head club author revision) =
      advance E st branch expected head club author revision

  -- The later store, after any actions that the store took.
  pub data Later (st : FileStore) : FileStore → Type 0 where
    now : Later st st
    after : {t u : FileStore} → Later st t → (a : StoreAction) → run t a ≡ ok u → Later st u

  -- A commit comes from an earlier one by parents that the store has.
  pub data Ancestor (st : FileStore) (a : Cid) : Cid → Type 0 where
    self : Ancestor st a a
    child :
        {p c : Cid} {n : FileNode}
        → Ancestor st a p
        → node_at E st c ≡ ok n
        → commit_parent n ≡ ok (some p)
        → Ancestor st a c

  Ancestor-Keeps : (st t : FileStore) (a c : Cid) → Keeps st t → Ancestor st a c → Ancestor t a c
  Ancestor-Keeps st t a c k self = self
  Ancestor-Keeps st t a c k (child x at above) =
      child (Ancestor-Keeps st t a _ k x) (node_at-Keeps E st t k c _ at) above

  run-Keeps : (st : FileStore) (a : StoreAction) (t : FileStore) → run st a ≡ ok t → Keeps st t
  unfolding run
  run-Keeps st (put_block b) t h = put-Keeps st b t h
  run-Keeps st (move branch expected head club author revision) t h =
      let (blocks, branches, before, above) =
        advance_lem st branch expected head club author revision t h in
      unfold Keeps in λ c x found. ground (arith, blocks, found)

  Later-Keeps : (st t : FileStore) → Later st t → Keeps st t
  Later-Keeps st t now = Keeps-refl st
  Later-Keeps st t (after l a h) = Keeps-trans st _ t (Later-Keeps st _ l) (run-Keeps _ a t h)

  -- What a store reads as the file of an id has the size and the checksum that the node of the id
  -- states, within 2 MiB, and every later store reads the same, after any blocks and any moves of
  -- branches.
  pub read-Later :
      (st t : FileStore) (c : Cid) (bytes : Bytes)
      → Later st t
      → read E st c ≡ ok bytes
      → (read E t c ≡ ok bytes)
        × (p : Option Cid) × (size : ℕ) × (sum : String) × (depth : ℕ) × (layout : FileLayout)
        × (file_node E st c ≡ ok (file p size sum depth layout))
        × (length bytes ≡ size)
        × (E.digest bytes ≡ sum)
        × (length bytes ≤ max_file_bytes)
  read-Later st t c bytes l h =
      let (p, size, sum, depth, layout, at_, long, sums, fits) = read-sizes E st c bytes h in
      (
        read-Keeps E st t (Later-Keeps st t l) c bytes h,
        p,
        size,
        sum,
        depth,
        layout,
        at_,
        long,
        sums,
        fits,
      )

  abbrev pub IsBounded : FileStore → Type 0
  IsBounded st = (stored_bytes st.blocks ≤ max_store_bytes) × (length st.branches ≤ max_branches)

  run-IsBounded :
      (st : FileStore) (a : StoreAction) (t : FileStore)
      → IsBounded st
      → run st a ≡ ok t
      → IsBounded t
  unfolding run
  run-IsBounded st (put_block b) t (x, y) h = elim (put_lem st b t h) [
    | inl same ↦ subst IsBounded (sym same) (x, y)
    | inr (new, fits, blocks, branches) ↦ (fits, ground arith)
  ]
  run-IsBounded st (move branch expected head club author revision) t (x, y) h =
      let (blocks, branches, before, rest) =
        advance_lem st branch expected head club author revision t h in
      let n =
        Dict.length-insert branch
          (record { commit = head; club = club; author = author; revision = revision })
          st.branches in
      (
        ground arith,
        elim before [
          | inl (new, none_, room) ↦ ground arith
          | inr (held, old, at_, same) ↦ ground arith
        ],
      )

  -- A branch that a store has is, in every later store, at that commit or a descendant, and with its club.
  HasMoved : FileStore → String → Head → Head → Type 0
  HasMoved t branch h k =
      (Dict.lookup branch t.branches ≡ some k) × (k.club ≡ h.club) × Ancestor t h.commit k.commit

  run-HasMoved :
      (st t : FileStore) (a : StoreAction) (branch : String) (h k : Head)
      → run st a ≡ ok t
      → HasMoved st branch h k
      → (j : Head) × HasMoved t branch h j
  unfolding run HasMoved
  run-HasMoved st t (put_block b) branch h k e (at_, same, up) =
      let up_ = Ancestor-Keeps st t _ _ (put-Keeps st b t e) up in
      elim (put_lem st b t e) [
        | inl stays ↦ (k, (ground arith, same, up_))
        | inr (new, fits, blocks, branches) ↦ (k, (ground arith, same, up_))
      ]
  run-HasMoved st t (move name expected head club author revision) branch h k e (at_, same, up) =
      let (blocks, branches, before, (n, found, parent)) =
        advance_lem st name expected head club author revision t e in
      let to : Head = record { commit = head; club = club; author = author; revision = revision } in
      let keeps = run-Keeps st (move name expected head club author revision) t e in
      let up_ = Ancestor-Keeps st t _ _ keeps up in
      let looked = Dict.lookup-insert branch name to st.branches in
      elim (Bool-cases (branch == name)) [
        | inr other ↦ (k, (ground arith, same, up_))
        | inl this ↦ elim before [
          | inl (new, none_, room) ↦ absurd (ground arith)
          | inr (held, old, was, club_) ↦ (
            to,
            (
              ground arith,
              ground arith,
              child {p = held.commit} (subst (λ c. Ancestor t h.commit c) (ground arith) up_)
                  (node_at-Keeps E st t keeps head n found) (ground arith),
            ),
          )
        ]
      ]

  -- Where a branch has a head, every later store has the branch too, held by the same club, at
  -- that commit or at one that comes from it by parents; blocks and moves of other branches
  -- may come between.
  pub head-Later :
      (st t : FileStore) (branch : String) (h : Head)
      → Later st t
      → Dict.lookup branch st.branches ≡ some h
      → (k : Head) × (Dict.lookup branch t.branches ≡ some k)
        × (k.club ≡ h.club)
        × Ancestor t h.commit k.commit
  unfolding HasMoved
  head-Later st t branch h now at_ = (h, at_, refl, self)
  head-Later st t branch h (after l a e) at_ =
      let (k, at_k, club_k, up_k) = head-Later st _ branch h l at_ in
      let (j, moved) = run-HasMoved _ t a branch h k e (at_k, club_k, up_k) in
      let (at_j, club_j, up_j) = moved in (j, at_j, club_j, up_j)

  -- Any history of a store within its bounds leaves it within them: at most
  -- 4 MiB of texts of blocks and at most 256 branches.
  pub Later-IsBounded :
      (st t : FileStore)
      → Later st t
      → (stored_bytes st.blocks ≤ max_store_bytes) × (length st.branches ≤ max_branches)
      → (stored_bytes t.blocks ≤ max_store_bytes) × (length t.branches ≤ max_branches)
  Later-IsBounded st t now h = h
  Later-IsBounded st t (after l a e) h = run-IsBounded _ a t (Later-IsBounded st _ l h) e
