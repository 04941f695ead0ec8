-- ===== src/Dispatch/Valid.antt =====
-- The range of the counters of the run, across a round of the main loop of src/main.c.
use agility_contest_serial_c.Base.{
  ℕ, ◌≡◌, ◌≢◌, ◌<◌, refl, Option, none, some, List, [], ◌∷◌, ℤ, pos, ltb_ℤ, Text, done, Bool-cases,
  inl, inr, tolower, map, length, ap, get_elem?, Returns, Returns-bind, All, Option-cases,
}
use agility_contest_serial_c.Tools.{explode}
use agility_contest_serial_c.Tokens.{Tokens, ntokens, IsArray}
use agility_contest_serial_c.Parser.{find_index}
use agility_contest_serial_c.MainMgr.{Main, main_mgr_entries}
use agility_contest_serial_c.MainMgr.Valid.{IsValid, Kept, data_index, main_mgr_entries-Keeps}
use agility_contest_serial_c.Dispatch.{
  World, Slot, Sent, Served, ManagerHandler, deliver, send_to, send_all, served_slots, finish,
  serve, execute, after_main, c_string, buffer_size,
}
use agility_contest_serial_c.Dispatch.Errors.{serve-execute}

find_index-nil : find_index [] ≡ none
unfolding find_index
find_index-nil = refl

module _ {A : Type 0} where
  -- a handler that is defined on every array of tokens and keeps the counters in range
  abbrev pub HandlerKeeps : ManagerHandler A → Type 0
  HandlerKeeps h =
      (w : World A) (t : Tokens) (n : ℕ)
      → IsValid w.main
      → IsArray t n
      → Returns (λ (res, w', t'). IsValid w'.main × IsArray t' n) (h w t n)

  abbrev pub EntryKeeps : Option (ManagerHandler A) → Type 0
  EntryKeeps none = Unit
  EntryKeeps (some h) = HandlerKeeps h

  abbrev pub TableKeeps : ℕ → Option (ℕ → Option (ManagerHandler A)) → Type 0
  TableKeeps index none = Unit
  TableKeeps index (some entries) = EntryKeeps (entries index)

  -- the handler of a thread at the index, if there is one, keeps the counters in range
  abbrev pub SlotKeeps : ℕ → Slot A → Type 0
  SlotKeeps index slot = TableKeeps index slot.entries

  abbrev SentKeeps : ℕ → Sent A → Type 0
  SentKeeps n s = IsValid s.world.main × IsArray s.tokens n

  deliver-Keeps :
      (h : ManagerHandler A) (n : ℕ) (s : Sent A)
      → HandlerKeeps h
      → SentKeeps n s
      → Returns (SentKeeps n) (deliver h n s)
  deliver-Keeps h n s keeps (v, a) =
      Returns-bind (λ (res, w', t'). IsValid w'.main × IsArray t' n) (SentKeeps n)
        (h s.world s.tokens n) _ (keeps s.world s.tokens n v a) (λ r k. k)

  send_to-Keeps :
      (index n : ℕ) (slot : Slot A) (s : Sent A)
      → SlotKeeps index slot
      → SentKeeps n s
      → Returns (SentKeeps n) (send_to index n slot s)
  unfolding send_to
  send_to-Keeps index n slot s keeps k = elim (Bool-cases slot.alive) [
    | inr dead ↦ rw dead k
    | inl alive ↦ rw alive (elim (Option-cases slot.entries) [
      | inl no_table ↦ rw no_table k
      | inr (entries, table) ↦ rw table (elim (Option-cases (entries index)) [
        | inl null ↦ rw null k
        | inr (h, entry) ↦
            let hk : HandlerKeeps h = (rw (table, entry) at keeps) in
            rw entry (deliver-Keeps h n s hk k)
      ])
    ])
  ]

  send_all-Keeps :
      (index n : ℕ) (slots : List (Slot A)) (s : Sent A)
      → All (SlotKeeps index) slots
      → SentKeeps n s
      → Returns (SentKeeps n) (send_all index n slots s)
  unfolding send_all
  send_all-Keeps index n [] s keeps k = k
  send_all-Keeps index n (slot ∷ slots) s keeps k =
      Returns-bind (SentKeeps n) (SentKeeps n) (send_to index n slot s) (send_all index n slots)
        (send_to-Keeps index n slot s keeps.0 k)
        (λ s' k'. send_all-Keeps index n slots s' keeps.1 k')

  abbrev WorldIsValid : Served A → Type 0
  WorldIsValid r = IsValid r.world.main

  after_main-Keeps :
      (slots : List (Slot A)) (buffer : Text) (index : ℕ) (t : Tokens) (w : World A) (r : ℤ × Main)
      → All (SlotKeeps index) (served_slots slots)
      → Kept r
      → Returns WorldIsValid (after_main slots buffer index t w r)
  unfolding after_main finish
  after_main-Keeps slots buffer index t w (res, m) keeps (_, v) =
      elim (Bool-cases (ltb_ℤ res (pos 0))) [
        | inl failed ↦ rw failed v
        | inr accepted ↦ rw accepted (
            Returns-bind (SentKeeps (ntokens t)) WorldIsValid
              (send_all index (ntokens t) (served_slots slots) _) _
              (send_all-Keeps index (ntokens t) (served_slots slots) _ keeps (v, inl refl))
              (λ s k. k.0))
      ]

  execute-Keeps :
      (slots : List (Slot A)) (buffer : Text) (index : ℕ) (t : Tokens) (w : World A)
      → index ≢ data_index
      → All (SlotKeeps index) (served_slots slots)
      → IsValid w.main
      → Returns WorldIsValid (execute slots buffer index t w)
  unfolding execute
  execute-Keeps slots buffer index t w ne keeps v =
      elim (Option-cases (get_elem? main_mgr_entries index)) [
        | inl null ↦
            rw null (after_main-Keeps slots buffer index t w (pos 0, w.main) keeps (inl refl, v))
        | inr (f, entry) ↦ rw entry (
            Returns-bind Kept WorldIsValid (f w.main t (ntokens t)) _
              (main_mgr_entries-Keeps index ne entry w.main t v)
              (λ r k. after_main-Keeps slots buffer index t w r keeps k))
      ]

  -- A datagram of less than 500 bytes that holds a command of the table other than DATA, and at most
  -- 32 tokens, is served without a fault and leaves the counters in range, provided that the
  -- handlers of the threads for this command do.
  pub serve-IsValid :
      (slots : List (Slot A)) (w : World A) (datagram source cmd : Text) (args : List Text)
      (index : ℕ)
      → length datagram < buffer_size
      → explode (c_string datagram) b' ' ≡ done (source ∷ cmd ∷ args)
      → find_index (map tolower cmd) ≡ some index
      → index ≢ data_index
      → All (SlotKeeps index) (served_slots slots)
      → IsValid w.main
      → Returns (λ r. IsValid r.world.main) (serve slots w (some datagram))
  serve-IsValid slots w datagram source cmd args index fits tokens found ne keeps v =
      let named : cmd ≢ [] =
        λ e. cc (found, ap (λ c. find_index (map tolower c)) e, find_index-nil) in
      rw (serve-execute slots w datagram source cmd args fits tokens found named)
        (execute-Keeps slots (c_string datagram) index _ w ne keeps v)
