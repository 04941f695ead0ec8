-- ===== src/Canometer/Deadlock.antt =====
-- src/modules/canometroweb.c: the branch of module_write that keeps the semaphore.
use agility_contest_serial_c.Base.{
  ℕ, zero, suc, ◌≡◌, refl, ◌∙◌, ◌⊎◌, inl, inr, none, some, get_elem?, negsuc, Text, codes, str_eq,
  tolower, strcase_eq, done,
}
use agility_contest_serial_c.Config.{Configuration}
use agility_contest_serial_c.Tokens.{Tokens}
use agility_contest_serial_c.Canometer.{ReadXml, Data, parse_status_xml}
use agility_contest_serial_c.Canometer.Link.{Put, ask, sendrec, synchronize_chrono}
use agility_contest_serial_c.Canometer.Poll.{Canometer, sem_wait, module_read}
use agility_contest_serial_c.Canometer.Command.{synchronize, execute, module_write, synchronized}

module _ {N : Type 0} (put : Put N) (read_xml : ReadXml) where
  execute-synchronize :
      (i : ℕ) (c : Configuration) (t : Tokens) (m : Canometer N)
      → get_elem? synchronized i ≡ some t.cmd
      → execute put read_xml c t m ≡ synchronize put read_xml c m
  unfolding execute strcase_eq str_eq tolower
  execute-synchronize zero c t m at = let cmd : codes "fault" ≡ t.cmd = cc at in rw⁻¹ cmd refl
  execute-synchronize (suc zero) c t m at =
      let cmd : codes "refusal" ≡ t.cmd = cc at in rw⁻¹ cmd refl
  execute-synchronize (suc (suc zero)) c t m at =
      let cmd : codes "elim" ≡ t.cmd = cc at in rw⁻¹ cmd refl
  execute-synchronize (suc (suc (suc zero))) c t m at =
      let cmd : codes "data" ≡ t.cmd = cc at in rw⁻¹ cmd refl
  execute-synchronize (suc (suc (suc (suc i)))) c t m at = cc at

  -- a request that fails, or an answer that is no document
  abbrev pub NoStatus : Configuration → N → Type 0
  NoStatus c net =
      ((sendrec put c (ask (codes "xml")) net).0 ≡ none)
      ⊎ ((received : Text) × ((sendrec put c (ask (codes "xml")) net).0 ≡ some received)
          × (read_xml received ≡ none))

  synchronize_chrono-fails :
      (c : Configuration) (d : Data) (net : N)
      → NoStatus c net
      → synchronize_chrono put read_xml c d net
        ≡ done (negsuc 0, d, (sendrec put c (ask (codes "xml")) net).1)
  unfolding synchronize_chrono parse_status_xml
  synchronize_chrono-fails c d net (inl failed) = rw (failed, synchronize_chrono) refl
  synchronize_chrono-fails c d net (inr (received, answered, unread)) =
      rw (answered, synchronize_chrono) (rw (unread, parse_status_xml) refl)

  synchronize-fails :
      (c : Configuration) (m : Canometer N)
      → NoStatus c m.net
      → (m' : Canometer N) × (m'.sem ≡ m.sem)
        × (synchronize put read_xml c m ≡ done (some (negsuc 0, m')))
  unfolding synchronize
  synchronize-fails c m fails = (
    record m { net = (sendrec put c (ask (codes "xml")) m.net).1 },
    refl,
    rw (synchronize_chrono-fails c m.cw_data m.net fails) refl,
  )

  module_read-waits :
      (c : Configuration) (buffer : Text) (size : ℕ) (m : Canometer N)
      → m.sem ≡ 0
      → module_read put read_xml c buffer size m ≡ done none
  unfolding module_read sem_wait
  module_read-waits c buffer size m held = rw (held, module_read, sem_wait) refl

  module_write-waits :
      (c : Configuration) (m : Canometer N) (t : Tokens) (n : ℕ)
      → m.sem ≡ 0
      → module_write put read_xml c m t n ≡ done none
  unfolding module_write sem_wait
  module_write-waits c m t n held = rw (held, module_write, sem_wait) refl

  -- If, while one of the commands fault, refusal, elim and data is written and nobody else holds the
  -- semaphore, the request for the state of the device fails or its answer is no document, then
  -- module_write fails and keeps the semaphore: from then on every call of module_read and of
  -- module_write waits for ever.
  pub module_write-blocks :
      (i n : ℕ) (c : Configuration) (t : Tokens) (m : Canometer N)
      → get_elem? synchronized i ≡ some t.cmd
      → m.sem ≡ 1
      → NoStatus c m.net
      → (m' : Canometer N) × (module_write put read_xml c m t n ≡ done (some (negsuc 0, m')))
        × ((c' : Configuration) (buffer : Text) (size : ℕ)
            → module_read put read_xml c' buffer size m' ≡ done none)
        × ((c' : Configuration) (t' : Tokens) (n' : ℕ)
            → module_write put read_xml c' m' t' n' ≡ done none)
  unfolding module_write sem_wait
  module_write-blocks i n c t m at free fails =
      let (m', held, failed) = synchronize-fails c (record m { sem = 0 }) fails in
      (
        m',
        rw free (execute-synchronize i c t (record m { sem = 0 }) at ∙ failed),
        λ c' buffer size. module_read-waits c' buffer size m' held,
        λ c' t' n'. module_write-waits c' m' t' n' held,
      )
