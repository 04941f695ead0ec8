-- ===== src/Relay/Echo.antt =====
-- How the managers of src/serial_mgr.c and src/net_mgr.c treat what comes from themselves.
use mathlib.Core.Path.{transport}
use agility_contest_serial_c.Base.{
  ℕ, zero, suc, ◌≡◌, Option, none, some, List, [], ◌∷◌, pos, Text, str_eq_refl, done, All,
  All-append, ap,
}
use agility_contest_serial_c.Tokens.{Tokens}
use agility_contest_serial_c.Dispatch.{World, ManagerHandler}
use agility_contest_serial_c.Relay.{
  Write, unless_own, sc_serial, sc_network, serial_entries, net_entries, serial_list, net_list,
  common_entries, serial_own, net_own, entry_at,
}

module _ {A D : Type 0} (driver : A → D) (put_driver : A → D → A) (module_write : Write D) where
  -- a handler that returns 0 and changes nothing when it is called for its own messages
  abbrev Ignores : Text → Option (ManagerHandler A) → Type 0
  Ignores self none = Unit
  Ignores self (some h) =
      (w : World A) (t : Tokens) (n : ℕ) → t.source ≡ self → h w t n ≡ done (pos 0, w, t)

  unless_own-Ignores :
      (self : Text) (h : ManagerHandler A)
      → Ignores self (some (unless_own driver put_driver module_write self h))
  unfolding unless_own
  unless_own-Ignores self h w t n own = rw (own, str_eq_refl self)

  common-Ignores :
      (self : Text) → All (Ignores self) (common_entries driver put_driver module_write self)
  common-Ignores self =
      let own : (h : ManagerHandler A)
          → Ignores self (some (unless_own driver put_driver module_write self h)) =
        unless_own-Ignores self in
      (
        own _,
        (
          own _,
          (
            own _,
            (
              own _,
              (own _, (own _, (own _, (own _, (own _, (own _, (own _, (own _, (own _, tt))))))))),
            ),
          ),
        ),
      )

  serial_list-Ignores : All (Ignores sc_serial) (serial_list driver put_driver module_write)
  serial_list-Ignores =
      let own : (h : ManagerHandler A)
          → Ignores sc_serial (some (unless_own driver put_driver module_write sc_serial h)) =
        unless_own-Ignores sc_serial in
      All-append (Ignores sc_serial) (common_entries driver put_driver module_write sc_serial)
        (serial_own driver put_driver module_write) (common-Ignores sc_serial)
        (tt, (tt, (own _, (tt, (tt, (tt, (tt, (own _, (own _, (own _, (tt, (tt, tt))))))))))))

  net_list-Ignores : All (Ignores sc_network) (net_list driver put_driver module_write)
  net_list-Ignores =
      let own : (h : ManagerHandler A)
          → Ignores sc_network (some (unless_own driver put_driver module_write sc_network h)) =
        unless_own-Ignores sc_network in
      All-append (Ignores sc_network) (common_entries driver put_driver module_write sc_network)
        (net_own driver put_driver module_write) (common-Ignores sc_network)
        (tt, (tt, (own _, (tt, (tt, (own _, (own _, (own _, (own _, (own _, (tt, (tt, tt))))))))))))

  entry_at-Ignores :
      (self : Text) (es : List (Option (ManagerHandler A))) (i : ℕ) (h : ManagerHandler A)
      → All (Ignores self) es
      → entry_at driver put_driver module_write es i ≡ some h
      → Ignores self (some h)
  entry_at-Ignores self [] i h all at = cc
  entry_at-Ignores self (e ∷ es) zero h all at = transport (ap (Ignores self) at) all.0
  entry_at-Ignores self (e ∷ es) (suc i) h all at = entry_at-Ignores self es i h all.1 at

  -- What the serial manager has sent itself is not written to the module: every entry of its table
  -- called with such tokens returns 0 and leaves the world and the tokens as they are.
  pub serial_entries-own :
      (i : ℕ) (h : ManagerHandler A) (w : World A) (t : Tokens) (n : ℕ)
      → serial_entries driver put_driver module_write i ≡ some h
      → t.source ≡ sc_serial
      → h w t n ≡ done (pos 0, w, t)
  serial_entries-own i h w t n at own =
      entry_at-Ignores sc_serial (serial_list driver put_driver module_write) i h
        serial_list-Ignores at w t n own

  -- What the network manager has sent itself is not written to the module: every entry of its table
  -- called with such tokens returns 0 and leaves the world and the tokens as they are.
  pub net_entries-own :
      (i : ℕ) (h : ManagerHandler A) (w : World A) (t : Tokens) (n : ℕ)
      → net_entries driver put_driver module_write i ≡ some h
      → t.source ≡ sc_network
      → h w t n ≡ done (pos 0, w, t)
  net_entries-own i h w t n at own =
      entry_at-Ignores sc_network (net_list driver put_driver module_write) i h net_list-Ignores at
        w t n own
