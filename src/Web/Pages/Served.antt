-- ===== src/Web/Pages/Served.antt =====
-- Which files the web server of src/web_server.c sends.
use agility_contest_serial_c.Base.{
  ℕ, zero, suc, ◌≤◌, ◌<◌, ◌≡◌, refl, ◌∙◌, ap, true, false, Option, none, some, [], ◌∷◌, ◌++◌, leb,
  Text, codes, take, drop, take-drop, length-take, length-drop, length, All, done, Bool-cases, inl,
  inr, arith,
}
use agility_contest_serial_c.License.Decrypt.Chunks.{joined}
use agility_contest_serial_c.Web.Pages.{
  Site, Response, line_size, file_path, content_type_of, pieces, file_response, invalid_title,
  default_service,
}

-- what one call of hsocket_nsend is given
abbrev pub IsPiece : Text → Type 0
IsPiece s = (0 < length s) × (length s ≤ line_size)

empty : (s : Text) → leb (length s) 0 ≡ true → s ≡ []
empty [] h = refl
empty (c ∷ s) h = absurd (ground arith)

length-take-some : (n : ℕ) (s : Text) → leb (length s) 0 ≡ false → 0 < length (take (suc n) s)
length-take-some n [] h = absurd (ground arith)
length-take-some n (c ∷ s) h = omega arith

-- The pieces are the content, in order, if there are enough rounds.
pieces-joined :
    (fuel : ℕ) (content : Text)
    → length content ≤ fuel
    → (joined (pieces fuel content) ≡ content) × All IsPiece (pieces fuel content)
unfolding pieces
pieces-joined zero content h = (ground arith, tt)
pieces-joined (suc fuel) content h = elim (Bool-cases (leb (length content) 0)) [
  | inl none_left ↦ rw none_left (ground (arith, empty content none_left), tt)
  | inr more ↦
      let shorter : length (drop 1024 content) ≤ fuel = ground (arith, length-drop 1024 content) in
      let (whole, all) = pieces-joined fuel (drop 1024 content) shorter in
      rw more (
        ap (λ (s : Text). take 1024 content ++ s) whole ∙ take-drop 1024 content,
        ((length-take-some 1023 content more, length-take content 1024), all),
      )
]

-- what is answered for the content of a file of a type
abbrev pub Serves : Text → Option Text → Response → Type 0
Serves type none r = (r.status ≡ 404) × (r.content_type ≡ none)
Serves type (some content) r =
    (r.status ≡ 200) × (r.content_type ≡ some type) × (joined r.sent ≡ content) × All IsPiece r.sent

file_response-Serves :
    (title type line : Text) (content : Option Text)
    → Serves type content (file_response title type line content)
unfolding file_response
file_response-Serves title type line none = (refl, refl)
file_response-Serves title type line (some content) =
    let (whole, all) = pieces-joined (length content) content (omega arith) in
    (refl, refl, whole, all)

file_path-fits :
    (cwd behind : Text)
    → length (cwd ++ behind) < line_size
    → file_path (some cwd) behind ≡ done (cwd ++ behind)
unfolding file_path
file_path-fits cwd behind h = ground (arith, h)

-- Where the directory and the path fit into the line, a file below html is sent whole and in order, in pieces of at
-- most 1024 bytes, with the type of its path; what is no file is answered by 404.
pub default_service-Serves :
    (site : Site) (cwd path : Text)
    → site.getcwd ≡ some cwd
    → length (cwd ++ (codes "/html" ++ path)) < line_size
    → (r : Response) × (default_service site path ≡ done r)
      × Serves
          (content_type_of (cwd ++ (codes "/html" ++ path)))
          (site.read_file (cwd ++ (codes "/html" ++ path)))
          r
unfolding default_service
default_service-Serves site cwd path here fits =
    let line = cwd ++ (codes "/html" ++ path) in
    let at = file_path-fits cwd (codes "/html" ++ path) fits in
    let r = file_response invalid_title (content_type_of line) line (site.read_file line) in
    (
      r,
      rw (here, default_service) (rw at refl),
      file_response-Serves invalid_title (content_type_of line) line (site.read_file line),
    )
