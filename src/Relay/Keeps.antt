-- ===== src/Relay/Keeps.antt =====
-- The handlers of src/serial_mgr.c and src/net_mgr.c, and the state of the run.
use mathlib.Core.Path.{transport}
use agility_contest_serial_c.Base.{
  ℕ, zero, suc, ◌≡◌, Option, some, List, [], ◌∷◌, Text, codes, str_eq, All, All-append, Returns,
  Returns-bind, Any, inl, inr, ap, Bool-cases,
}
use agility_contest_serial_c.Config.{Configuration}
use agility_contest_serial_c.Tokens.{Tokens, with_default, IsArray, with_default-IsArray}
use agility_contest_serial_c.MainMgr.Valid.{IsValid}
use agility_contest_serial_c.Dispatch.{World, ManagerHandler}
use agility_contest_serial_c.Dispatch.Valid.{HandlerKeeps, EntryKeeps}
use agility_contest_serial_c.Relay.{
  Write, unless_own, write, write_default, not_sent, leave, sc_serial, sc_network, serial_entries,
  net_entries, serial_list, net_list, common_entries, serial_own, net_own, entry_at,
}

-- the module's write is defined on every array of tokens
abbrev pub WriteTotal : {D : Type 0} → Write D → Type 0
WriteTotal {D = D} module_write =
    (d : D) (c : Configuration) (t : Tokens) (n : ℕ)
    → IsArray t n
    → Returns Any (module_write d c t n)

module _ {A D : Type 0} (driver : A → D) (put_driver : A → D → A) (module_write : Write D)
    (total : WriteTotal module_write) where
  unless_own-Keeps :
      (self : Text) (h : ManagerHandler A)
      → HandlerKeeps h
      → HandlerKeeps (unless_own driver put_driver module_write self h)
  unfolding unless_own
  unless_own-Keeps self h keeps w t n v a = elim (Bool-cases (str_eq self t.source)) [
    | inl own ↦ rw own (v, a)
    | inr other ↦ rw other (keeps w t n v a)
  ]

  write-Keeps : HandlerKeeps (write driver put_driver module_write)
  unfolding write
  write-Keeps w t n v a =
      Returns-bind Any (λ (res, w', t'). IsValid w'.main × IsArray t' n)
        (module_write (driver w.app) w.main.config t n) _ (total (driver w.app) w.main.config t n a)
        (λ r u. (v, a))

  -- the default stays in the array, for the managers that are called later
  write_default-Keeps :
      (value : Text) → HandlerKeeps (write_default driver put_driver module_write value)
  unfolding write_default write
  write_default-Keeps value w t n v a =
      let (kept, same) = with_default-IsArray value t n a in
      Returns-bind Any (λ (res, w', t'). IsValid w'.main × IsArray t' n)
        (module_write (driver w.app) w.main.config (with_default value t n).0
          (with_default value t n).1)
        _
        (total (driver w.app) w.main.config (with_default value t n).0 (with_default value t n).1
          (inl same))
        (λ r u. (v, kept))

  not_sent-Keeps : HandlerKeeps (not_sent driver put_driver module_write)
  unfolding not_sent
  not_sent-Keeps w t n v a = (v, a)

  leave-Keeps : HandlerKeeps (leave driver put_driver module_write)
  unfolding leave
  leave-Keeps w t n v a = (v, a)

  common-Keeps : (self : Text) → All EntryKeeps (common_entries driver put_driver module_write self)
  common-Keeps self =
      let o : (h : ManagerHandler A)
          → HandlerKeeps h
          → HandlerKeeps (unless_own driver put_driver module_write self h) =
        unless_own-Keeps self in
      let d = λ (value : Text). o _ (write_default-Keeps value) in
      let w = o _ write-Keeps in
      let s = o _ not_sent-Keeps in
      (d _, (w, (w, (s, (s, (w, (d _, (d _, (d _, (d _, (d _, (w, (w, tt)))))))))))))

  own-Keeps :
      (self : Text) (h : ManagerHandler A)
      → HandlerKeeps h
      → EntryKeeps (some (unless_own driver put_driver module_write self h))
  own-Keeps self h keeps = unless_own-Keeps self h keeps

  serial_list-Keeps : All EntryKeeps (serial_list driver put_driver module_write)
  serial_list-Keeps =
      let d = own-Keeps sc_serial _ (write_default-Keeps (codes "+")) in
      let w = own-Keeps sc_serial _ write-Keeps in
      let l = own-Keeps sc_serial _ leave-Keeps in
      All-append EntryKeeps (common_entries driver put_driver module_write sc_serial)
        (serial_own driver put_driver module_write) (common-Keeps sc_serial)
        (tt, (tt, (l, (tt, (tt, (tt, (tt, (d, (d, (w, (tt, (tt, tt))))))))))))

  net_list-Keeps : All EntryKeeps (net_list driver put_driver module_write)
  net_list-Keeps =
      let d = own-Keeps sc_network _ (write_default-Keeps (codes "+")) in
      let w = own-Keeps sc_network _ write-Keeps in
      let l = own-Keeps sc_network _ leave-Keeps in
      All-append EntryKeeps (common_entries driver put_driver module_write sc_network)
        (net_own driver put_driver module_write) (common-Keeps sc_network)
        (tt, (tt, (l, (tt, (tt, (w, (w, (d, (d, (w, (tt, (tt, tt))))))))))))

  entry_at-Keeps :
      (es : List (Option (ManagerHandler A))) (i : ℕ) (h : ManagerHandler A)
      → All EntryKeeps es
      → entry_at driver put_driver module_write es i ≡ some h
      → HandlerKeeps h
  entry_at-Keeps [] i h all at = cc
  entry_at-Keeps (e ∷ es) zero h all at = transport (ap EntryKeeps at) all.0
  entry_at-Keeps (e ∷ es) (suc i) h all at = entry_at-Keeps es i h all.1 at

  -- If the module's write is defined on every array of tokens, then so is every entry of the serial
  -- manager, called with the number of tokens of the loop: it leaves the counters of the run in range
  -- and an array that goes with that number.
  pub serial_entries-IsValid :
      (i : ℕ) (h : ManagerHandler A) (w : World A) (t : Tokens) (n : ℕ)
      → serial_entries driver put_driver module_write i ≡ some h
      → IsValid w.main
      → IsArray t n
      → Returns (λ (res, w', t'). IsValid w'.main × IsArray t' n) (h w t n)
  serial_entries-IsValid i h w t n at v a =
      entry_at-Keeps (serial_list driver put_driver module_write) i h serial_list-Keeps at w t n v a

  -- If the module's write is defined on every array of tokens, then so is every entry of the network
  -- manager, called with the number of tokens of the loop: it leaves the counters of the run in range
  -- and an array that goes with that number.
  pub net_entries-IsValid :
      (i : ℕ) (h : ManagerHandler A) (w : World A) (t : Tokens) (n : ℕ)
      → net_entries driver put_driver module_write i ≡ some h
      → IsValid w.main
      → IsArray t n
      → Returns (λ (res, w', t'). IsValid w'.main × IsArray t' n) (h w t n)
  net_entries-IsValid i h w t n at v a =
      entry_at-Keeps (net_list driver put_driver module_write) i h net_list-Keeps at w t n v a
