-- ===== src/Web/Pages.antt =====
-- The callbacks of src/web_server.c that send files and the logo, and the start of the server. The HTTP server and
-- files are parameters.
pub mod Served
use agility_contest_serial_c.Base.{
  ℕ, zero, suc, ◌+◌, ◌-◌, ◌*◌, ◌/◌, Bool, true, false, not, Option, none, some, List, [], ◌∷◌, ◌++◌,
  ltb, leb, if◌then◌else◌, pos, eqb_ℤ, ◌+ℤ◌, wrap32, Text, codes, strstr, print_int, take, drop,
  length, Run, done, fault, ◌>>=◌,
}
use agility_contest_serial_c.Config.{Configuration}
use agility_contest_serial_c.License.{get_license_logo}
use agility_contest_serial_c.License

-- the working directory, none where its path is too long for the line, and the content of a file, none where it
-- is a directory or cannot be opened
pub record Site : Type 0 where
  pub getcwd : Option Text
  pub read_file : Text → Option Text

-- the status, the content type, where it is set, and what hsocket_send and hsocket_nsend are given
pub record Response : Type 0 where
  pub status : ℕ
  pub content_type : Option Text
  pub sent : List Text

-- char line[1024]
abbrev pub line_size : ℕ
line_size = 1024

-- the text that getcwd and strcat leave in the line
unfoldable pub file_path : Option Text → Text → Run Text
file_path none behind = fault
file_path (some cwd) behind =
    if ltb (length (cwd ++ behind)) line_size then done (cwd ++ behind) else fault

-- the type by what stands anywhere in the path
unfoldable pub content_type_of : Text → Text
unfolding strstr
content_type_of line =
    if strstr line (codes ".json")
    then codes "application/json"
    else if strstr line (codes ".js")
    then codes "text/javascript"
    else if strstr line (codes ".css")
    then codes "text/css"
    else if strstr line (codes ".png")
    then codes "image/png"
    else if strstr line (codes ".jpg")
    then codes "image/jpeg"
    else if strstr line (codes ".txt")
    then codes "text/plain"
    else codes "text/html"

-- what fread reads round by round; `fuel` bounds the rounds
unfoldable pub pieces : ℕ → Text → List Text
pieces zero content = []
pieces (suc fuel) content =
    let rest = pieces fuel (drop line_size content) in
    if leb (length content) 0 then [] else take line_size content ∷ rest

-- The answer for the file in the line, which is sent on as many rounds as it has bytes; `title` starts the page for a
-- file that is not found.
unfoldable pub file_response : Text → Text → Text → Option Text → Response
unfolding pieces
file_response title type line none = record {
  status = 404;
  content_type = none;
  sent = title ∷ line ∷ codes " can not be found</div></body></html>" ∷ [];
}
file_response title type line (some content) = record {
  status = 200;
  content_type = some type;
  sent = pieces (length content) content;
}

abbrev pub invalid_title : Text
invalid_title =
    codes "<html> <head> <title>Invalid</title> </head> <body> <h1>Invalid or not found</h1> <div>"

abbrev pub entry_title : Text
entry_title =
    codes "<html> <head> <title>Entry Page</title> </head> <body> <h1>404 Not Found</h1> <div>"

unfoldable pub default_service : Site → Text → Run Response
unfolding file_path content_type_of file_response
default_service site path = do
  line ← file_path site.getcwd (codes "/html" ++ path)
  done (file_response invalid_title (content_type_of line) line (site.read_file line))

unfoldable pub root_service : Site → Run Response
unfolding file_path file_response
root_service site = do
  line ← file_path site.getcwd (codes "/html/index.html")
  done (file_response entry_title (codes "text/html") line (site.read_file line))

abbrev zeros : ℕ → Text
zeros zero = []
zeros (suc n) = 0 ∷ zeros n

-- base64_decode into a buffer of `len` bytes, all of which are sent
abbrev decoded : (Text → Text) → Text → Run Text
decoded base64_decode logo =
    let len = 4 + length logo * 3 / 4 in
    let data' = base64_decode logo in
    if leb (length data') len then done (data' ++ zeros (len - length data')) else fault

abbrev logo_data : (Text → Text) → Option Text × ℕ → Run Text
logo_data base64_decode (none, size) = fault
logo_data base64_decode (some [], zero) = fault
logo_data base64_decode (some (c ∷ s), zero) = decoded base64_decode (c ∷ s)
logo_data base64_decode (some logo, suc n) = done (take (suc n) logo)

-- `base64_decode` is the one of the HTTP server
unfoldable pub get_logo : (Text → Text) → License.Files → Option Text → Run Response
unfolding get_license_logo
get_logo base64_decode files license_data = do
  logo ← get_license_logo files license_data
  image ← logo_data base64_decode logo
  done (record { status = 200; content_type = some (codes "image/png"); sent = image ∷ [] })

-- whether the calls of the HTTP server succeed: httpd_init with a port, httpd_register with a path
pub record Httpd : Type 0 where
  pub init : Text → Bool
  pub register : Text → Bool
  pub register_default : Text → Bool

-- the paths that are served, the command that is run for a browser, and whether httpd_run is entered
pub record Launched : Type 0 where
  pub services : List Text
  pub browser : Option Text
  pub runs : Bool

abbrev pub paths : List Text
paths = codes "/" ∷ codes "/readData" ∷ codes "/writeData" ∷ codes "/getLogo" ∷ []

-- the paths in front of the first that cannot be registered, and whether there is none such
unfoldable pub register_all : (Text → Bool) → List Text → List Text × Bool
register_all register [] = ([], true)
register_all register (p ∷ ps) =
    let (served, all) = register_all register ps in
    if register p then (p ∷ served, all) else ([], false)

-- snprintf into 64 bytes
abbrev into_buffer : Text → Text
into_buffer = take 63

abbrev pub port_of : Configuration → Text
unfolding print_int ◌+ℤ◌ wrap32
port_of c = into_buffer (print_int (wrap32 (c.ring +ℤ c.web_port)))

abbrev pub browser_of : Configuration → Option Text
unfolding print_int ◌+ℤ◌ wrap32
browser_of c =
    if eqb_ℤ c.fire_browser (pos 0)
    then none
    else some (
        into_buffer (
          codes "xdg-open http://localhost:"
          ++ (print_int (wrap32 (c.ring +ℤ c.web_port)) ++ codes "/index.html")))

abbrev fails : List Text → Launched
fails served = record { services = served; browser = none; runs = false }

-- The server of the page up to httpd_run.
unfoldable pub init_web_server : Httpd → Configuration → Launched
unfolding register_all print_int ◌+ℤ◌ wrap32
init_web_server httpd c =
    let (served, all) = register_all httpd.register paths in
    if not (httpd.init (port_of c))
    then fails []
    else if not all
    then fails served
    else if not (httpd.register_default (codes "/error"))
    then fails served
    else record { services = served ++ codes "/error" ∷ []; browser = browser_of c; runs = true }
