-- ===== src/Web/Tests.antt =====
-- Requests to src/web.rs.
use webuiboot.Base.{◌≡◌, refl, [], ◌∷◌, ◌++◌, map, Option, some, length}
use webuiboot.Text.{Str, codes, lines, str_eq}
use webuiboot.Text.Decimal.{decimal, read_decimal}
use webuiboot.Text.Utf8.{as_bytes}
use webuiboot.Web.{
  BootSelection, linux, body, closing_response, boot_response, serialize, status_line, header_line,
  body_text, Parse, handle_http_request, answer,
}
use webuiboot.Web.Routes.{IsAnswer, path_of, handle_http_request-answers, boots_only_on_post}
use webuiboot.Web.Wire.{value_of, lines-serialize, body-content_length}

-- A parser that takes every request for the same one.
abbrev always : Str → Str → Parse
always method path request = some (some path, some method)

abbrev page_text : Str
page_text = codes "<p>Boot</p>\n"

handle_http_request-answers_example :
    (a : Str × Option BootSelection) × (handle_http_request
        (always (codes "GET") (codes "/index.html"))
        page_text
        []
      ≡ some a)
    × IsAnswer page_text (codes "/index.html") (codes "GET") a
handle_http_request-answers_example =
    handle_http_request-answers (always (codes "GET") (codes "/index.html")) page_text []
      (codes "/index.html") (codes "GET") refl

boots_only_on_post_example :
    (always (codes "POST") (codes "/boot/linux") []
      ≡ some (some (path_of linux), some (codes "POST")))
    × (serialize boot_response ≡ serialize boot_response)
unfolding handle_http_request answer str_eq
boots_only_on_post_example =
    boots_only_on_post (always (codes "POST") (codes "/boot/linux")) page_text []
      (serialize boot_response) linux refl

lines-serialize_example :
    lines (serialize boot_response)
    ≡ status_line boot_response
      ∷ (map header_line boot_response.headers ++ [] ∷ lines (body_text boot_response.content))
unfolding decimal as_bytes
lines-serialize_example = lines-serialize boot_response refl (refl, (refl, (refl, tt)))

body-content_length_example :
    (v : Str) × (value_of
        (codes "Content-Length")
        (body (as_bytes page_text) (codes "text/html") (closing_response 200 (codes "OK"))).headers
      ≡ some v)
    × (read_decimal 0 v
        ≡ length (
            as_bytes (
              body_text
                (body
                  (as_bytes page_text)
                  (codes "text/html")
                  (closing_response 200 (codes "OK"))).content)))
unfolding str_eq
body-content_length_example =
    body-content_length page_text (codes "text/html") (closing_response 200 (codes "OK")) refl refl
