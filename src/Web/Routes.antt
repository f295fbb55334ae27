-- ===== src/Web/Routes.antt =====
-- Which requests src/web.rs answers, and how.
use webuiboot.Base.{
  ◌≡◌, refl, ◌∙◌, ◌≢◌, arith, sym, true, false, ◌&&◌, ◌||◌, Option, none, some, Option-cases,
  Bool-cases, inl, inr, ◌⊎◌, ap,
}
use webuiboot.Text.{Str, codes, str_eq, str_eq→eq, str_eq_refl}
use webuiboot.Text.Utf8.{Bytes}
use webuiboot.Web.{
  BootSelection, windows, linux, boot_response, missing_response, page_response, serialize, answer,
  Parse, handle_http_request,
}

abbrev pub path_of : BootSelection → Str
path_of windows = codes "/boot/windows"
path_of linux = codes "/boot/linux"

-- How the answer comes about.
pub data IsAnswer (html_ui path method : Str) : Str × Option BootSelection → Type 0 where
  page :
      method ≡ codes "GET"
      → (path ≡ codes "/") ⊎ (path ≡ codes "/index.html")
      → IsAnswer html_ui path method (serialize (page_response html_ui), none)
  boot :
      (sel : BootSelection)
      → method ≡ codes "POST"
      → path ≡ path_of sel
      → IsAnswer html_ui path method (serialize boot_response, some sel)
  missing :
      (method ≡ codes "GET" → (path ≢ codes "/") × (path ≢ codes "/index.html"))
      → (method ≡ codes "POST" → (sel : BootSelection) → path ≢ path_of sel)
      → IsAnswer html_ui path method (serialize missing_response, none)

both_eq : (m n p q : Str) → str_eq m n && str_eq p q ≡ true → (m ≡ n) × (p ≡ q)
both_eq m n p q h = (str_eq→eq m n (ground (arith, h)), str_eq→eq p q (ground (arith, h)))

eq_str_eq : (s t : Str) → s ≡ t → str_eq s t ≡ true
eq_str_eq s t e = rw e (str_eq_refl t)

not_both : (m n p q : Str) → str_eq m n && str_eq p q ≡ false → m ≡ n → p ≢ q
not_both m n p q h e f = ground (arith, eq_str_eq m n e, eq_str_eq p q f)

page_eq :
    (m n p q r : Str)
    → str_eq m n && (str_eq p q || str_eq p r) ≡ true
    → (m ≡ n) × ((p ≡ q) ⊎ (p ≡ r))
page_eq m n p q r h = elim (Bool-cases (str_eq p q)) [
  | inl e ↦ (str_eq→eq m n (ground (arith, h)), inl (str_eq→eq p q e))
  | inr e ↦ (str_eq→eq m n (ground (arith, h)), inr (str_eq→eq p r (ground (arith, h))))
]

not_page :
    (m n p q r : Str) → str_eq m n && (str_eq p q || str_eq p r) ≡ false → m ≡ n → (p ≢ q) × (p ≢ r)
not_page m n p q r h e = (
  λ f. ground (arith, eq_str_eq m n e, eq_str_eq p q f),
  λ f. ground (arith, eq_str_eq m n e, eq_str_eq p r f),
)

no_boot :
    (method path : Str)
    → str_eq method (codes "POST") && str_eq path (codes "/boot/windows") ≡ false
    → str_eq method (codes "POST") && str_eq path (codes "/boot/linux") ≡ false
    → method ≡ codes "POST"
    → (sel : BootSelection) → path ≢ path_of sel
no_boot method path a b m windows = not_both method _ path _ a m
no_boot method path a b m linux = not_both method _ path _ b m

-- Every answer is the page for a GET of "/" or "/index.html", the start of a boot for a POST of its
-- path, or "not found" for any other method and path.
pub answer-IsAnswer :
    (html_ui path method : Str) → IsAnswer html_ui path method (answer html_ui path method)
unfolding answer
answer-IsAnswer html_ui path method =
    let get =
      str_eq method (codes "GET")
      && (str_eq path (codes "/") || str_eq path (codes "/index.html")) in
    let to_windows = str_eq method (codes "POST") && str_eq path (codes "/boot/windows") in
    let to_linux = str_eq method (codes "POST") && str_eq path (codes "/boot/linux") in
    elim (Bool-cases get) [
      | inl g ↦ let (m, p) = page_eq method _ path _ _ g in rw g (page m p)
      | inr g ↦ rw g (elim (Bool-cases to_windows) [
        | inl a ↦ let (m, p) = both_eq method _ path _ a in rw a (boot windows m p)
        | inr a ↦ rw a (elim (Bool-cases to_linux) [
          | inl b ↦ let (m, p) = both_eq method _ path _ b in rw b (boot linux m p)
          | inr b ↦ rw b (missing (not_page method _ path _ _ g) (no_boot method path a b))
        ])
      ])
    ]

none-some : {A : Type 0} {a : A} → none ≢ some a
none-some e = cc

some-injective : {A : Type 0} {a b : A} → some a ≡ some b → a ≡ b
some-injective e = cc

of_boot :
    (html_ui path method text : Str) (sel : BootSelection) (a : Str × Option BootSelection)
    → IsAnswer html_ui path method a
    → a ≡ (text, some sel)
    → (method ≡ codes "POST") × (path ≡ path_of sel) × (text ≡ serialize boot_response)
of_boot _ _ _ text sel _ (page m p) e = elim (none-some (ap (λ x. x.1) e)) [ ]
of_boot _ _ _ text sel _ (boot other m p) e =
    (m, p ∙ ap path_of (some-injective (ap (λ x. x.1) e)), sym (ap (λ x. x.0) e))
of_boot _ _ _ text sel _ (missing g b) e = elim (none-some (ap (λ x. x.1) e)) [ ]

module _ (parse : Parse) (html_ui : Str) (request : Bytes) where
  -- A request whose path and method `httparse` gives is always answered, by the table of routes.
  pub handle_http_request-answers :
      (path method : Str)
      → parse request ≡ some (some path, some method)
      → (a : Str × Option BootSelection) × (handle_http_request parse html_ui request ≡ some a)
        × IsAnswer html_ui path method a
  unfolding handle_http_request
  handle_http_request-answers path method h =
      (answer html_ui path method, rw h refl, answer-IsAnswer html_ui path method)

  -- A boot is selected only by a request that was parsed to a POST of the path of its system, and
  -- the answer is then "OK".
  pub boots_only_on_post :
      (text : Str) (sel : BootSelection)
      → handle_http_request parse html_ui request ≡ some (text, some sel)
      → (parse request ≡ some (some (path_of sel), some (codes "POST")))
        × (text ≡ serialize boot_response)
  unfolding handle_http_request
  boots_only_on_post text sel h = elim (Option-cases (parse request)) [
    | inl e ↦ elim (none-some (rw e at h)) [ ]
    | inr ((none, method), e) ↦ elim (none-some (rw e at h)) [ ]
    | inr ((some path, none), e) ↦ elim (none-some (rw e at h)) [ ]
    | inr ((some path, some method), e) ↦
        let (m, p, t) =
          of_boot html_ui path method text sel _ (answer-IsAnswer html_ui path method)
            (some-injective (rw e at h)) in
        (rw (e, m, p) refl, t)
  ]
