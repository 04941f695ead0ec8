-- ===== src/Canometer/Link.antt =====
-- src/modules/canometroweb.c: requests to the device, and the synchronisation of its counters. A PUT by
-- libcurl is a parameter: the url, what is posted, and the network before and behind it; the result is
-- none where no handle can be made, else the bytes that the device sends.
use agility_contest_serial_c.Base.{
  ℕ, zero, suc, Bool, true, false, Option, none, some, List, [], ◌∷◌, ◌++◌, if◌then◌else◌, ℤ, pos,
  negsuc, distance, ◌+ℤ◌, ◌-ℤ◌, ltb_ℤ, eqb_ℤ, wrap32, Text, codes, strstr, print_int, Run, done,
  ◌>>=◌,
}
use agility_contest_serial_c.Config.{Configuration}
use agility_contest_serial_c.Digican.{all_faults, bounded}
use agility_contest_serial_c.Canometer.{Data, ReadXml, no_data, parse_status_xml}

abbrev pub Put : Type 0 → Type 0
Put N = Text → Text → N → Option Text × N

-- a page, and what it is to set: tipo and valor; the answer is only kept where it is wanted
pub record Request : Type 0 where
  pub page : Text
  pub setting : Option (Text × Text)
  pub wantresponse : Bool

-- the GET-like requests of a page, and those of a setting
abbrev pub ask : Text → Request
ask p = record { page = p; setting = none; wantresponse = true }

abbrev pub set : Text → Text → Text → Request
set p tipo valor = record { page = p; setting = some (tipo, valor); wantresponse = false }

abbrev pub step : Text → Text → Request
step tipo valor = set (codes "canometro_accion") tipo valor

-- %s of config->comm_ipaddr; a NULL is printed as glibc does
abbrev address : Configuration → Text
address c = elim c.comm_ipaddr [ none ↦ codes "(null)" | some ip ↦ ip ]

-- what is posted for a setting
abbrev post_data : Option (Text × Text) → Text
post_data none = []
post_data (some (tipo, valor)) = bounded 255 (codes "tipo=" ++ tipo ++ codes "&valor=" ++ valor)

module _ {N : Type 0} (put : Put N) where
  unfoldable pub sendrec : Configuration → Request → N → Option Text × N
  sendrec c r net =
      let (answer, net') =
        put (bounded 254 (codes "http://" ++ address c ++ codes "/" ++ r.page))
          (post_data r.setting) net in
      elim answer [
        | none ↦ (none, net')
        | some bytes ↦ (some (if r.wantresponse then bytes else []), net')
      ]

  -- a request whose answer is not looked at
  unfoldable pub request : Configuration → Request → N → N
  unfolding sendrec
  request c r net = (sendrec c r net).1

  unfoldable pub requests : Configuration → List Request → N → N
  unfolding request
  requests c [] net = net
  requests c (r ∷ rs) net = requests c rs (request c r net)

  -- `for (int cur=...; delta(target,cur)!=0; cur+=delta(target,cur))`, on fuel
  unfoldable pub step_to : ℕ → Configuration → Text → ℤ → ℤ → N → N
  unfolding request ◌+ℤ◌ ◌-ℤ◌
  step_to zero c tipo target cur net = net
  step_to (suc f) c tipo target cur net =
      let up = step_to f c tipo target (cur +ℤ pos 1) (request c (step tipo (codes "1")) net) in
      let down = step_to f c tipo target (cur -ℤ pos 1) (request c (step tipo (codes "-1")) net) in
      if ltb_ℤ cur target then up else if ltb_ℤ target cur then down else net

  -- the device behind the requests for the faults and the refusals
  unfoldable pub synchronize_counts : Bool → Configuration → Data → N → N
  unfolding step_to requests print_int ◌+ℤ◌ wrap32
  synchronize_counts newer c d net =
      let ft = all_faults c.status in
      let r = c.status.refusals in
      if newer
      then requests c
          (step (codes "TF") (bounded 16 (print_int ft))
            ∷ step (codes "TR") (bounded 16 (print_int r))
            ∷ [])
          net
      else step_to (distance r d.rehuses) c (codes "R") r d.rehuses
          (step_to (distance ft d.faltas) c (codes "F") ft d.faltas net)

  abbrev pub synchronize_out : Configuration → Data → N → N
  synchronize_out c d net =
      if eqb_ℤ c.status.eliminated d.eliminado
      then net
      else request c (step (codes "E") (codes "0")) net

  -- the result, cw_data and the network; newer devices are meant to be known by a keyword in the answer
  unfoldable pub synchronize_chrono : ReadXml → Configuration → Data → N → Run (ℤ × Data × N)
  unfolding sendrec parse_status_xml strstr synchronize_counts request
  synchronize_chrono read_xml c cw net =
      let (answer, net') = sendrec c (ask (codes "xml")) net in
      elim answer [
        | none ↦ done (negsuc 0, cw, net')
        | some received ↦ do
          parsed ← parse_status_xml read_xml no_data received
          elim parsed [
            | none ↦ done (negsuc 0, cw, net')
            | some d ↦
                let counted = synchronize_counts (strstr (codes "uptime") received) c d net' in
                done (
                  pos 0,
                  record cw {
                    eliminado = c.status.eliminated;
                    rehuses = c.status.refusals;
                    faltas = c.status.faults;
                  },
                  synchronize_out c d counted,
                )
          ]
      ]
