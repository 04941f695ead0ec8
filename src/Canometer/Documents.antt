-- ===== src/Canometer/Documents.antt =====
-- The documents that src/modules/canometroweb.c reads.
use agility_contest_serial_c.Base.{
  ℕ, ◌≡◌, Option, codes, refl, none, some, List, [], ◌∷◌, Text, Returns, Returns-bind, Any, All,
  Option-cases, inl, inr, arith,
}
use agility_contest_serial_c.Tools.{strhash}
use agility_contest_serial_c.Canometer.{
  Data, Setup, Node, ReadXml, atoi_of, atol_of, status_node, status_nodes, config_node,
  config_nodes, parse_status_xml, parse_config_xml,
}

-- an element that is not empty
abbrev pub HasText : Node → Type 0
HasText (name, none) = ⊥
HasText (name, some s) = Unit {0}

status_node-Returns : (h : ℕ) (s : Text) (d : Data) → Returns Any (status_node h (some s) d)
unfolding status_node atoi_of atol_of
status_node-Returns h s d = ground arith

config_node-Returns : (h : ℕ) (s : Text) (c : Setup) → Returns Any (config_node h (some s) c)
unfolding config_node atoi_of
config_node-Returns h s c = ground arith

status_nodes-Returns :
    (nodes : List Node) (d : Data) → All HasText nodes → Returns Any (status_nodes nodes d)
unfolding status_nodes
status_nodes-Returns [] d full = tt
status_nodes-Returns ((name, none) ∷ nodes) d full = absurd full.0
status_nodes-Returns ((name, some s) ∷ nodes) d full =
    Returns-bind Any Any _ (status_nodes nodes) (status_node-Returns (strhash name) s d)
      (λ d' u. status_nodes-Returns nodes d' full.1)

config_nodes-Returns :
    (nodes : List Node) (c : Setup) → All HasText nodes → Returns Any (config_nodes nodes c)
unfolding config_nodes
config_nodes-Returns [] c full = tt
config_nodes-Returns ((name, none) ∷ nodes) c full = absurd full.0
config_nodes-Returns ((name, some s) ∷ nodes) c full =
    Returns-bind Any Any _ (config_nodes nodes) (config_node-Returns (strhash name) s c)
      (λ c' u. config_nodes-Returns nodes c' full.1)

-- every element of the documents that the device sends has a text
abbrev pub FullDocuments : ReadXml → Type 0
FullDocuments read_xml =
    (xml : Text) (nodes : List Node) → read_xml xml ≡ some nodes → All HasText nodes

module _ (read_xml : ReadXml) (full : FullDocuments read_xml) where
  pub parse_status_xml-Returns :
      (d : Data) (xml : Text) → Returns Any (parse_status_xml read_xml d xml)
  unfolding parse_status_xml
  parse_status_xml-Returns d xml = elim (Option-cases (read_xml xml)) [
    | inl nothing ↦ rw (nothing, Returns) tt
    | inr (nodes, found) ↦
        rw (found, Returns)
          (Returns-bind Any Any (status_nodes nodes d) _
            (status_nodes-Returns nodes d (full xml nodes found)) (λ d' u. tt))
  ]

  pub parse_config_xml-Returns :
      (c : Setup) (xml : Text) → Returns Any (parse_config_xml read_xml c xml)
  unfolding parse_config_xml
  parse_config_xml-Returns c xml = elim (Option-cases (read_xml xml)) [
    | inl nothing ↦ rw (nothing, Returns) tt
    | inr (nodes, found) ↦
        rw (found, Returns)
          (Returns-bind Any Any (config_nodes nodes c) _
            (config_nodes-Returns nodes c (full xml nodes found)) (λ c' u. tt))
  ]

-- the elements of the documents of version run.34 and of version run.56, with the same values; the
-- latter has addresses, which are not used, and a countdown
abbrev pub old_style : Text → Text → Text → Text → Text → Text → Text → Text → List Node
old_style time millis running faults refusals out results version =
    (codes "millistime", some millis)
    ∷ (codes "tiempoactual", some time)
    ∷ (codes "cronocorriendo", some running)
    ∷ (codes "faltas", some faults)
    ∷ (codes "rehuses", some refusals)
    ∷ (codes "eliminado", some out)
    ∷ (codes "cuentaresultados", some results)
    ∷ (codes "versionresultados", some version)
    ∷ []

abbrev pub new_style :
    Text → Text → Text → Text → Text → Text → Text → Text → Option Text → List Node
new_style time millis running faults refusals out results version ip =
    (codes "uptime", some millis)
    ∷ (codes "systemip", ip)
    ∷ (codes "ethip", ip)
    ∷ (codes "wlanip", ip)
    ∷ (codes "time", some time)
    ∷ (codes "running", some running)
    ∷ (codes "faults", some faults)
    ∷ (codes "refusals", some refusals)
    ∷ (codes "elimination", some out)
    ∷ (codes "nresults", some results)
    ∷ (codes "resultversion", some version)
    ∷ []

-- The names of both versions of the device lead to the same data: a document of the old version and one of
-- the new version with the same texts, and any addresses, are read to the same result.
pub status_nodes-versions :
    (time millis running faults refusals out results version : Text) (ip : Option Text) (d : Data)
    → status_nodes (new_style time millis running faults refusals out results version ip) d
      ≡ status_nodes (old_style time millis running faults refusals out results version) d
unfolding status_nodes status_node strhash atoi_of atol_of
status_nodes-versions time millis running faults refusals out results version ip d = refl
