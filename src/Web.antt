-- ===== src/Web.antt =====
-- src/web.rs: the answers to HTTP requests. `httparse` and the page that the build includes are
-- parameters. A `Vec` or `String` that is filled is a list that grows at its end.
pub mod Routes
pub mod Wire
mod Tests
use webuiboot.Base.{
  ℕ, ◌++◌, Bool, true, false, ◌&&◌, ◌||◌, List, [], ◌∷◌, Option, none, some, if◌then◌else◌, length,
  is_empty,
}
use webuiboot.Text.{Str, codes, str_eq}
use webuiboot.Text.Utf8.{Bytes, from_utf8, as_bytes}
use webuiboot.Text.Decimal.{decimal}

pub data BootSelection : Type 0 where
  windows linux : BootSelection

pub record Response : Type 0 where
  pub status_code : ℕ
  pub status_text : Str
  pub headers : List (Str × Str)
  pub content : Bytes

abbrev pub new : ℕ → Str → Response
new code text = record { status_code = code; status_text = text; headers = []; content = [] }

abbrev pub header : Str → Str → Response → Response
header name value r = record r { headers = r.headers ++ (name, value) ∷ [] }

abbrev pub body : Bytes → Str → Response → Response
body bytes content_type r =
    header (codes "Content-Length") (decimal (length bytes))
      (header (codes "Content-Type") content_type (record r { content = bytes }))

abbrev pub crlf : Str
crlf = codes "\r\n"

abbrev pub status_line : Response → Str
status_line r = codes "HTTP/1.1 " ++ decimal r.status_code ++ codes " " ++ r.status_text

abbrev pub header_line : Str × Str → Str
header_line h = h.0 ++ codes ": " ++ h.1

-- the loop over the headers
unfoldable pub push_headers : List (Str × Str) → Str → Str
push_headers [] response = response
push_headers (h ∷ hs) response = push_headers hs (response ++ header_line h ++ crlf)

-- what is pushed for the body: nothing where it is no UTF-8
unfoldable pub body_text : Bytes → Str
body_text bytes = if is_empty bytes then [] else text_or_nothing (from_utf8 bytes)
  where
    text_or_nothing : Option Str → Str
    text_or_nothing none = []
    text_or_nothing (some text) = text

unfoldable pub serialize : Response → Str
unfolding push_headers body_text
serialize r = push_headers r.headers (status_line r ++ crlf) ++ crlf ++ body_text r.content

abbrev pub closing_response : ℕ → Str → Response
closing_response code text = header (codes "Connection") (codes "close") (new code text)

abbrev pub page_response : Str → Response
page_response html_ui =
    body (as_bytes html_ui) (codes "text/html") (closing_response 200 (codes "OK"))

abbrev pub boot_response : Response
boot_response =
    body (as_bytes (codes "OK")) (codes "text/plain") (closing_response 200 (codes "OK"))

abbrev pub missing_response : Response
missing_response = closing_response 404 (codes "NOT FOUND")

-- The path and the method that were parsed; `none` is a failed parse.
abbrev pub Parse : Type 0
Parse = Bytes → Option (Option Str × Option Str)

unfoldable pub answer : Str → Str → Str → Str × Option BootSelection
answer html_ui path method =
    if str_eq method (codes "GET") && (str_eq path (codes "/") || str_eq path (codes "/index.html"))
    then (serialize (page_response html_ui), none)
    else if str_eq method (codes "POST") && str_eq path (codes "/boot/windows")
    then (serialize boot_response, some windows)
    else if str_eq method (codes "POST") && str_eq path (codes "/boot/linux")
    then (serialize boot_response, some linux)
    else (serialize missing_response, none)

-- `?` on an option
infixl 5 ◌>>=◌
abbrev ◌>>=◌ : {A B : Type 0} → Option A → (A → Option B) → Option B
none >>= f = none
(some a) >>= f = f a

unfoldable pub handle_http_request : Parse → Str → Bytes → Option (Str × Option BootSelection)
unfolding answer
handle_http_request parse html_ui request = do
  parsed ← parse request
  path ← parsed.0
  method ← parsed.1
  some (answer html_ui path method)
