-- ===== src/Dispatch/Ends.antt =====
-- When the main loop of src/main.c ends
use agility_contest_serial_c.Base.{
  ℕ, ◌+◌, ◌≡◌, true, false, none, some, List, [], ◌∷◌, if◌then◌else◌, arith, ℤ, pos, ltb_ℤ, Text,
  codes, done, Bool-cases, ◌⊎◌, inl, inr, ◌↔◌, >>=-eq-done, ℤ-cases, ap, sym, ◌∙◌,
}
use agility_contest_serial_c.Tools.{stripos}
use agility_contest_serial_c.Tools.Stripos.{OccursAt, stripos_sound, stripos_complete}
use agility_contest_serial_c.Tokens.{Tokens, ntokens}
use agility_contest_serial_c.MainMgr.{Main}
use agility_contest_serial_c.Dispatch.{
  World, Slot, Served, Sent, send_to, send_all, finish, has_exit, response_ok, served_slots,
  after_main,
}

-- `exit` stands in the text, in whatever case.
abbrev pub HoldsExit : Text → Type 0
HoldsExit buffer = (i : ℕ) × OccursAt (codes "exit") buffer i

has_exit_sound : (buffer : Text) → has_exit buffer ≡ true → HoldsExit buffer
unfolding has_exit
has_exit_sound buffer h = elim (ℤ-cases (stripos (some buffer) (some (codes "exit")))) [
  | inl (j, at) ↦ let (k, _, o) = stripos_sound (codes "exit") buffer at in (k, o)
  | inr (j, at) ↦ ground (arith, ap (λ (z : ℤ). ltb_ℤ z (pos 0)) at)
]

has_exit_complete : (buffer : Text) → HoldsExit buffer → has_exit buffer ≡ true
unfolding has_exit
has_exit_complete buffer (i, (before, found, after, e, count, same)) =
    let (j, at, _) = stripos_complete b'e' (codes "xit") before found after same in
    rw (e, at) (ground arith)

module _ {A : Type 0} where
  abbrev takes_part : Slot A → ℕ
  takes_part slot = if slot.alive then (elim slot.entries [ none ↦ 0 | some _ ↦ 1 ]) else 0

  -- the number of threads that are alive and have a table
  abbrev pub serving : List (Slot A) → ℕ
  serving [] = 0
  serving (slot ∷ slots) = takes_part slot + serving slots

  send_to-alive :
      (index n : ℕ) (slot : Slot A) (s : Sent A) {s' : Sent A}
      → send_to index n slot s ≡ done s'
      → s'.alive ≡ takes_part slot + s.alive
  unfolding send_to
  send_to-alive index n slot s e = ground arith

  send_all-alive :
      (index n : ℕ) (slots : List (Slot A)) (s : Sent A) {s' : Sent A}
      → send_all index n slots s ≡ done s'
      → s'.alive ≡ serving slots + s.alive
  unfolding send_all
  send_all-alive index n [] s e = ground arith
  send_all-alive index n (slot ∷ slots) s e =
      let (t, sent, rest) = >>=-eq-done (send_to index n slot s) (send_all index n slots) e in
      omega (arith, send_to-alive index n slot s sent, send_all-alive index n slots t rest)

  -- the loop ends without a live thread, or when the text holds `exit`
  finish-loop :
      (buffer : Text) (s : Sent A)
      → ((finish buffer s).loop ≡ false) ↔ ((s.alive ≡ 0) ⊎ HoldsExit buffer)
  unfolding finish
  finish-loop buffer s = (
    λ h. elim (Bool-cases (has_exit buffer)) [
      | inl holds ↦ inr (has_exit_sound buffer holds)
      | inr lacks ↦ inl (ground arith)
    ],
    λ h. elim h [
      | inl idle ↦ ground arith
      | inr holds ↦ ground (arith, has_exit_complete buffer holds)
    ],
  )

  -- When the main manager accepts a command, the loop ends with this round exactly if no thread that
  -- is alive has a table, or the text of the datagram, its source and arguments included, holds
  -- "exit" in whatever case.
  pub after_main-loop :
      (slots : List (Slot A)) (buffer : Text) (index : ℕ) (t : Tokens) (w : World A) (res : ℤ)
      (m : Main) {r : Served A}
      → ltb_ℤ res (pos 0) ≡ false
      → after_main slots buffer index t w (res, m) ≡ done r
      → (r.loop ≡ false) ↔ ((serving (served_slots slots) ≡ 0) ⊎ HoldsExit buffer)
  unfolding after_main
  after_main-loop slots buffer index t w res m {r} accepted e =
      let s0 : Sent A = record {
        world = record w { main = m };
        tokens = t;
        response = response_ok;
        alive = 0;
      } in
      let send = send_all index (ntokens t) (served_slots slots) in
      let (s, sent, ended) =
        >>=-eq-done (send s0) (λ x. done (finish buffer x)) (rw accepted at e) in
      let count = send_all-alive index (ntokens t) (served_slots slots) s0 sent in
      let same : (finish buffer s).loop ≡ r.loop = ground arith in
      let (ends, back) = finish-loop buffer s in
      (
        λ h. elim (ends (same ∙ h)) [ inl idle ↦ inl (omega arith) | inr holds ↦ inr holds ],
        λ h.
            sym same
            ∙ elim h [ inl idle ↦ back (inl (omega arith)) | inr holds ↦ back (inr holds) ],
      )
