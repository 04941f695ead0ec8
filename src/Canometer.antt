-- ===== src/Canometer.antt =====
-- src/modules/canometroweb.c: the module of the Canometer chronometer, which is a web server. Here: its
-- data, the documents that it sends, and requests. libxml2 and libcurl are parameters.
pub mod Link
pub mod Poll
pub mod Command
pub mod Documents
pub mod Locks
pub mod Deadlock
pub mod Start
pub mod Session
pub mod Steps
pub mod Converge
mod Tests
use agility_contest_serial_c.Base.{
  ℕ, ◌^◌, Bool, true, false, Option, none, some, List, [], ◌∷◌, ◌==◌, if◌then◌else◌, ℤ, pos,
  unsigned, Text, atoi, strtol, Run, done, fault, ◌>>=◌,
}
use agility_contest_serial_c.Tools.{strhash}

-- canometroweb_data_t
pub record Data : Type 0 where
  pub uptime : ℕ
  pub tiempo : ℕ
  pub running : ℤ
  pub countdown : ℤ
  pub faltas : ℤ
  pub rehuses : ℤ
  pub eliminado : ℤ
  pub cuentaresultados : ℤ
  pub versionresultados : ℤ

-- what calloc makes
abbrev pub no_data : Data
no_data = record {
  uptime = 0;
  tiempo = 0;
  running = pos 0;
  countdown = pos 0;
  faltas = pos 0;
  rehuses = pos 0;
  eliminado = pos 0;
  cuentaresultados = pos 0;
  versionresultados = pos 0;
}

-- canometroweb_config_t; the strings are NULL at first
pub record Setup : Type 0 where
  pub brightness : Option Text
  pub precision : Option Text
  pub guardtime : ℤ
  pub walktime : ℤ
  pub walkstyle : Option Text
  pub ring : ℤ

-- An element node below the root: its name, and its text, which is NULL where the element is empty.
abbrev pub Node : Type 0
Node = Text × Option Text

-- xmlReadMemory and xmlDocGetRootElement with the elements below the root; `none` for a document that
-- cannot be parsed or has no root
abbrev pub ReadXml : Type 0
ReadXml = Text → Option (List Node)

-- atoi and atol of a string that may be NULL
unfoldable pub atoi_of : Option Text → Run ℤ
unfolding atoi
atoi_of none = fault
atoi_of (some s) = done (atoi s)

unfoldable pub atol_of : Option Text → Run ℤ
unfolding strtol
atol_of none = fault
atol_of (some s) = done (strtol s)

abbrev pub one_of : List ℕ → ℕ → Bool
one_of [] h = false
one_of (x ∷ xs) h = let rest = one_of xs h in if h == x then true else rest

-- the cases of the switch in parse_status_xml, by the hash of the name
abbrev pub ignored_names : List ℕ
ignored_names = 1384135232 ∷ 3513656618 ∷ 879605700 ∷ []

abbrev pub uptime_names : List ℕ
uptime_names = 2684650499 ∷ 1460523255 ∷ []

abbrev pub tiempo_names : List ℕ
tiempo_names = 745070122 ∷ 453318486 ∷ []

abbrev pub running_names : List ℕ
running_names = 596062245 ∷ 1729232476 ∷ []

abbrev pub countdown_names : List ℕ
countdown_names = 2869542252 ∷ []

abbrev pub faltas_names : List ℕ
faltas_names = 1669014770 ∷ 2573711985 ∷ []

abbrev pub rehuses_names : List ℕ
rehuses_names = 1027329196 ∷ 3483516292 ∷ []

abbrev pub eliminado_names : List ℕ
eliminado_names = 1848729312 ∷ 3898589209 ∷ []

abbrev pub cuentaresultados_names : List ℕ
cuentaresultados_names = 2909132481 ∷ 1236622162 ∷ []

abbrev pub versionresultados_names : List ℕ
versionresultados_names = 452169101 ∷ 1062725413 ∷ []

-- one round of the loop: the last case and the default only log
unfoldable pub status_node : ℕ → Option Text → Data → Run Data
unfolding atoi_of atol_of unsigned
status_node h attr d =
    if one_of ignored_names h
    then done d
    else if one_of uptime_names h
    then (do n ← atoi_of attr; done (record d { uptime = unsigned (2 ^ 32) n }))
    else if one_of tiempo_names h
    then (do n ← atol_of attr; done (record d { tiempo = unsigned (2 ^ 64) n }))
    else if one_of running_names h
    then (do n ← atoi_of attr; done (record d { running = n }))
    else if one_of countdown_names h
    then (do n ← atoi_of attr; done (record d { countdown = n }))
    else if one_of faltas_names h
    then (do n ← atoi_of attr; done (record d { faltas = n }))
    else if one_of rehuses_names h
    then (do n ← atoi_of attr; done (record d { rehuses = n }))
    else if one_of eliminado_names h
    then (do n ← atoi_of attr; done (record d { eliminado = n }))
    else if one_of cuentaresultados_names h
    then (do n ← atoi_of attr; done (record d { cuentaresultados = n }))
    else if one_of versionresultados_names h
    then (do n ← atoi_of attr; done (record d { versionresultados = n }))
    else done d

unfoldable pub status_nodes : List Node → Data → Run Data
unfolding strhash status_node
status_nodes [] d = done d
status_nodes ((name, attr) ∷ nodes) d = do
  d' ← status_node (strhash name) attr d
  status_nodes nodes d'

unfoldable pub config_node : ℕ → Option Text → Setup → Run Setup
unfolding atoi_of
config_node h attr c =
    if h == 47090558
    then done (record c { brightness = attr })
    else if h == 1983694643
    then done (record c { precision = attr })
    else if h == 563329470
    then (do n ← atoi_of attr; done (record c { guardtime = n }))
    else if h == 3258535140
    then (do n ← atoi_of attr; done (record c { walktime = n }))
    else if h == 781678146
    then done (record c { walkstyle = attr })
    else if h == 3239119231
    then (do n ← atoi_of attr; done (record c { ring = n }))
    else done c

unfoldable pub config_nodes : List Node → Setup → Run Setup
unfolding strhash config_node
config_nodes [] c = done c
config_nodes ((name, attr) ∷ nodes) c = do
  c' ← config_node (strhash name) attr c
  config_nodes nodes c'

module _ (read_xml : ReadXml) where
  -- NULL for a document that cannot be read
  unfoldable pub parse_status_xml : Data → Text → Run (Option Data)
  unfolding status_nodes
  parse_status_xml d xml = elim (read_xml xml) [
    | none ↦ done none
    | some nodes ↦ (status_nodes nodes d >>= λ d'. done (some d'))
  ]

  unfoldable pub parse_config_xml : Setup → Text → Run (Option Setup)
  unfolding config_nodes
  parse_config_xml c xml = elim (read_xml xml) [
    | none ↦ done none
    | some nodes ↦ (config_nodes nodes c >>= λ c'. done (some c'))
  ]
