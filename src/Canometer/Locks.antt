-- ===== src/Canometer/Locks.antt =====
-- The semaphore of src/modules/canometroweb.c: who releases it.
use agility_contest_serial_c.Base.{
  ℕ, suc, ◌<◌, ◌≡◌, refl, false, Option, none, some, List, [], ◌∷◌, length, ℤ, pos, eqb_ℤ, Text,
  codes, strcase_eq, ◌>>=◌, Returns, Returns-bind, Any, Bool-cases, Option-cases, ◌⊎◌, inl, inr,
  arith,
}
use agility_contest_serial_c.Config.{Configuration}
use agility_contest_serial_c.Tokens.{Tokens, arg}
use agility_contest_serial_c.Canometer.{Data, ReadXml, no_data}
use agility_contest_serial_c.Canometer.Documents.{
  FullDocuments, parse_status_xml-Returns, parse_config_xml-Returns,
}
use agility_contest_serial_c.Canometer.Link.{Put, Request, ask, step, sendrec}
use agility_contest_serial_c.Canometer.Poll.{Canometer, sem_wait, report, module_read}
use agility_contest_serial_c.Canometer.Command.{
  last_request, walk, read_config, read_status, execute, module_write, names, synchronized,
  unsupported, reset_request, no_page, minutes_of,
}

module _ {N : Type 0} where
  -- a result and a state in which the semaphore has the value k
  abbrev pub Leaves : ℕ → Option (ℤ × Canometer N) → Type 0
  Leaves k none = ⊥
  Leaves k (some (res, m)) = m.sem ≡ k

  abbrev pub LeavesRead : ℕ → Option (ℤ × Text × Canometer N) → Type 0
  LeavesRead k none = ⊥
  LeavesRead k (some (res, buffer, m)) = m.sem ≡ k

  report-Leaves :
      (c : Configuration) (size : ℕ) (new : Data) (m : Canometer N)
      → Returns (LeavesRead (suc m.sem)) (report c size new m)
  unfolding report
  report-Leaves c size new m = ground arith

module _ {N : Type 0} (put : Put N) (read_xml : ReadXml) (full : FullDocuments read_xml) where
  last_request-Leaves :
      (c : Configuration) (m : Canometer N) (r : Request)
      → Returns (Leaves (suc m.sem)) (last_request put read_xml c m r)
  unfolding last_request
  last_request-Leaves c m r = elim (Option-cases (sendrec put c r m.net).0) [
    | inl nothing ↦ rw (nothing, Returns) refl
    | inr (answer, found) ↦ rw (found, Returns) refl
  ]

  -- module_read releases the semaphore on every branch.
  pub module_read-releases :
      (c : Configuration) (buffer : Text) (size k : ℕ) (m : Canometer N)
      → m.sem ≡ suc k
      → Returns (LeavesRead (suc k)) (module_read put read_xml c buffer size m)
  unfolding module_read sem_wait
  module_read-releases c buffer size k m free =
      rw free (elim (Option-cases (sendrec put c (ask (codes "xml")) m.net).0) [
        | inl nothing ↦ rw (nothing, Returns) refl
        | inr (received, found) ↦
            rw (found, Returns)
              (Returns-bind Any (LeavesRead (suc k)) _ _
                (parse_status_xml-Returns read_xml full no_data received)
                (λ p u. elim (Option-cases p) [
                  | inl unread ↦ rw (unread, Returns) refl
                  | inr (new, read) ↦
                      rw (read, Returns) (report-Leaves c size new (record m { sem = k; net = _ }))
                ]))
      ])

  walk-Leaves :
      (c : Configuration) (minutes : ℤ) (m : Canometer N)
      → Returns (Leaves (suc m.sem)) (walk put read_xml c minutes m)
  unfolding walk
  walk-Leaves c minutes m = elim (Bool-cases (eqb_ℤ minutes (pos 0))) [
    | inl stop ↦ rw stop (last_request-Leaves c m reset_request)
    | inr walks ↦ rw walks (elim (Bool-cases (eqb_ℤ m.cw_config.walktime minutes)) [
      | inl same ↦ rw same (last_request-Leaves c m (step (codes "W") (codes "0")))
      | inr other ↦ rw other (last_request-Leaves c _ (step (codes "W") (codes "0")))
    ])
  ]

  read_config-Leaves :
      (c : Configuration) (m : Canometer N)
      → Returns (Leaves (suc m.sem)) (read_config put read_xml c m)
  unfolding read_config
  read_config-Leaves c m = elim (Option-cases (sendrec put c (ask (codes "config_xml")) m.net).0) [
    | inl nothing ↦ rw (nothing, Returns) refl
    | inr (answer, found) ↦
        rw (found, Returns)
          (Returns-bind Any (Leaves (suc m.sem)) _ _
            (parse_config_xml-Returns read_xml full m.cw_config answer) (λ p u. refl))
  ]

  read_status-Leaves :
      (c : Configuration) (m : Canometer N)
      → Returns (Leaves (suc m.sem)) (read_status put read_xml c m)
  unfolding read_status
  read_status-Leaves c m = elim (Option-cases (sendrec put c (ask (codes "xml")) m.net).0) [
    | inl nothing ↦ rw (nothing, Returns) refl
    | inr (answer, found) ↦
        rw (found, Returns)
          (Returns-bind Any (Leaves (suc m.sem)) _ _
            (parse_status_xml-Returns read_xml full m.cw_data answer) (λ p u. refl))
  ]

  walk_branch-Leaves :
      (c : Configuration) (args : List Text) (m : Canometer N)
      → 0 < length args
      → Returns (Leaves (suc m.sem)) (arg args >>= λ a. walk put read_xml c (minutes_of a) m)
  unfolding arg
  walk_branch-Leaves c [] m h = absurd (omega arith)
  walk_branch-Leaves c (a ∷ rest) m h = walk-Leaves c (minutes_of a) m

  -- the chain of tests without the synchronised commands
  execute-Leaves :
      (c : Configuration) (t : Tokens) (m : Canometer N)
      → names synchronized t.cmd ≡ false
      → (strcase_eq (codes "walk") t.cmd ≡ false) ⊎ (0 < length t.args)
      → Returns (Leaves (suc m.sem)) (execute put read_xml c t m)
  unfolding execute
  execute-Leaves c t m other argument = elim (Bool-cases (strcase_eq (codes "start") t.cmd)) [
    | inl e ↦ rw e (last_request-Leaves c m _)
    | inr e ↦ rw e (elim (Bool-cases (strcase_eq (codes "stop") t.cmd)) [
      | inl e ↦ rw e (last_request-Leaves c m _)
      | inr e ↦ rw e (elim (Bool-cases (strcase_eq (codes "walk") t.cmd)) [
        | inl e ↦ rw e (
            walk_branch-Leaves c t.args m
              (elim argument [ inl not_walk ↦ cc | inr some_arg ↦ some_arg ]))
        | inr e ↦ rw e (elim (Bool-cases (strcase_eq (codes "down") t.cmd)) [
          | inl e ↦ rw e (last_request-Leaves c m (step (codes "C") (codes "0")))
          | inr e ↦
              rw (e, other)
                (elim (Bool-cases (strcase_eq (codes "reset") t.cmd)) [
                  | inl e ↦ rw e (last_request-Leaves c m reset_request)
                  | inr e ↦ rw e (elim (Bool-cases (strcase_eq (codes "config") t.cmd)) [
                    | inl e ↦ rw e (read_config-Leaves c m)
                    | inr e ↦ rw e (elim (Bool-cases (strcase_eq (codes "status") t.cmd)) [
                      | inl e ↦ rw e (read_status-Leaves c m)
                      | inr e ↦ rw e (elim (Bool-cases (names unsupported t.cmd)) [
                        | inl e ↦ rw e (last_request-Leaves c m no_page)
                        | inr e ↦ rw e refl
                      ])
                    ])
                  ])
                ])
        ])
      ])
    ])
  ]

  -- module_write releases the semaphore for every command that is not one of fault, refusal, elim and
  -- data, if WALK has an argument and the documents of the device have no empty elements.
  pub module_write-releases :
      (c : Configuration) (m : Canometer N) (t : Tokens) (n k : ℕ)
      → m.sem ≡ suc k
      → names synchronized t.cmd ≡ false
      → (strcase_eq (codes "walk") t.cmd ≡ false) ⊎ (0 < length t.args)
      → Returns (Leaves (suc k)) (module_write put read_xml c m t n)
  unfolding module_write sem_wait
  module_write-releases c m t n k free other argument =
      rw free (execute-Leaves c t (record m { sem = k }) other argument)
