-- ===== src/Web/Wire.antt =====
-- The text of a response of src/web.rs, as its reader sees it.
use mathlib.Core.List.{append_assoc, append-nil}
use webuiboot.Base.{
  ◌≡◌, refl, sym, ◌∙◌, ap, true, List, [], ◌∷◌, ◌++◌, map, Option, none, some, if◌then◌else◌,
  length, List-cases, Bool-cases, ◌≢◌, inl, inr,
}
use webuiboot.Text.{Str, codes, lines, str_eq}
use webuiboot.Text.Utf8.{as_bytes, all_scalar, from_utf8-as_bytes}
use webuiboot.Text.Decimal.{decimal, read_decimal, read_decimal-decimal}
use webuiboot.Text.Lines.{IsLine, lines-crlf}
use webuiboot.Web.{
  Response, body, crlf, status_line, header_line, push_headers, body_text, serialize,
}

-- The headers, each with its end.
abbrev head_of : List (Str × Str) → Str
head_of [] = []
head_of (h ∷ hs) = header_line h ++ (b'\r' ∷ b'\n' ∷ head_of hs)

push_headers_lem :
    (hs : List (Str × Str)) (response : Str) → push_headers hs response ≡ response ++ head_of hs
unfolding push_headers
push_headers_lem [] response = sym (append-nil response)
push_headers_lem (h ∷ hs) response = push_headers_lem hs _ ∙ simp append_assoc

abbrev pub AllHeaderLines : List (Str × Str) → Type 0
AllHeaderLines [] = Unit
AllHeaderLines (h ∷ hs) = IsLine (header_line h) × AllHeaderLines hs

lines-head_of :
    (hs : List (Str × Str)) (rest : Str)
    → AllHeaderLines hs
    → lines (head_of hs ++ rest) ≡ map header_line hs ++ lines rest
lines-head_of [] rest a = refl
lines-head_of (h ∷ hs) rest a =
    ap lines (append_assoc (header_line h) (crlf ++ head_of hs) rest)
    ∙ lines-crlf (header_line h) (head_of hs ++ rest) a.0
    ∙ ap (λ x. header_line h ∷ x) (lines-head_of hs rest a.1)

-- Without newlines in the status and the headers, the lines of a response are the status line, a line
-- for each header in order, an empty line, and the lines of the body.
pub lines-serialize :
    (r : Response)
    → IsLine (status_line r)
    → AllHeaderLines r.headers
    → lines (serialize r)
      ≡ status_line r ∷ (map header_line r.headers ++ [] ∷ lines (body_text r.content))
unfolding serialize
lines-serialize r s a =
    let sent = status_line r in
    let text = body_text r.content in
    ap (λ x. lines (x ++ crlf ++ text)) (push_headers_lem r.headers (sent ++ crlf))
    ∙ ap lines (simp append_assoc)
    ∙ lines-crlf sent (head_of r.headers ++ (crlf ++ text)) s
    ∙ ap (λ x. sent ∷ x)
        (lines-head_of r.headers (crlf ++ text) a
          ∙ ap (λ x. map header_line r.headers ++ x) (lines-crlf [] text refl))

abbrev pub value_of : Str → List (Str × Str) → Option Str
value_of name [] = none
value_of name (h ∷ hs) = if str_eq h.0 name then some h.1 else value_of name hs

value_of-append :
    (name : Str) (hs ks : List (Str × Str))
    → value_of name hs ≡ none
    → value_of name (hs ++ ks) ≡ value_of name ks
value_of-append name [] ks n = refl
value_of-append name (h ∷ hs) ks n = elim (Bool-cases (str_eq h.0 name)) [
  | inl e ↦ elim (some-none (rw e at n)) [ ]
  | inr e ↦ rw e (value_of-append name hs ks (rw e at n))
]
  where
    some-none : {a : Str} → some a ≢ none
    some-none e = cc

body_text-length :
    (text : Str)
    → all_scalar text ≡ true
    → length (as_bytes (body_text (as_bytes text))) ≡ length (as_bytes text)
unfolding body_text as_bytes
body_text-length text s = elim (List-cases (as_bytes text)) [
  | inl e ↦ rw e refl
  | inr (b, bs, e) ↦ rw (e, ← e, body_text, from_utf8-as_bytes text s) (ap length e)
]

-- For a response whose body is a Rust string: its "Content-Length" is the number of bytes of the
-- text that follows the empty line.
pub body-content_length :
    (text content_type : Str) (r : Response)
    → all_scalar text ≡ true
    → value_of (codes "Content-Length") r.headers ≡ none
    → (v : Str) × (value_of (codes "Content-Length") (body (as_bytes text) content_type r).headers
        ≡ some v)
      × (read_decimal 0 v
          ≡ length (as_bytes (body_text (body (as_bytes text) content_type r).content)))
body-content_length text content_type r s n = (
  decimal (length (as_bytes text)),
  ap (value_of (codes "Content-Length")) (append_assoc r.headers _ _)
      ∙ value_of-append (codes "Content-Length") r.headers _ n
      ∙ unfold str_eq in refl,
  (read_decimal-decimal (length (as_bytes text))).0 ∙ sym (body_text-length text s),
)
