-- ===== src/Web/InvitePage.antt =====
-- src/invitations/invite-page.controller.ts: the page that a shared invitation link opens.

use tutor_app_back.Prelude.{
  filter, ℕ, ◌≡◌, sym, ap, ◌∙◌, inl, inr, Bool, true, not, ◌&&◌, ◌||◌, Option, none, some, [], ◌∷◌,
  ◌++◌, arith, leb, ◌==◌, if◌then◌else◌, Bool-cases, length, all,
}
use tutor_app_back.Model.Text.{Text, ascii}

abbrev is_between : ℕ → ℕ → ℕ → Bool
is_between low high c = leb low c && leb c high

-- `[A-Za-z0-9_-]`
abbrev pub is_token_char : ℕ → Bool
is_token_char c =
    is_between 65 90 c || is_between 97 122 c || is_between 48 57 c || c == 95 || c == 45

-- `/^[A-Za-z0-9_-]{16,128}$/`
unfoldable pub is_token : Text → Bool
is_token token = all is_token_char token && is_between 16 128 (length token)

-- The lines of the document before the link and after it.
unfoldable pub page_head : Text
page_head =
    ascii "<!doctype html>"
    ++ ascii "<html lang=\"en\"><head>"
    ++ ascii "<meta charset=\"utf-8\">"
    ++ ascii "<meta name=\"viewport\" content=\"width=device-width, initial-scale=1\">"
    ++ ascii "<title>Join on Fox Academy</title>"
    ++ ascii "<style>"
    ++ ascii "body{font-family:system-ui,sans-serif;margin:0;min-height:100vh;display:flex;"
    ++ ascii "align-items:center;justify-content:center;background:#faf7f4;color:#2b2118}"
    ++ ascii "main{max-width:22rem;padding:2rem;text-align:center}"
    ++ ascii "h1{font-size:1.35rem;margin:0 0 .5rem}"
    ++ ascii "p{margin:0 0 1.5rem;line-height:1.5;color:#6b5c4e}"
    ++ ascii "a.open{display:block;padding:.9rem 1rem;border-radius:.75rem;"
    ++ ascii "background:#c2410c;color:#fff;text-decoration:none;font-weight:600}"
    ++ ascii "small{display:block;margin-top:1.25rem;color:#8a7a6b}"
    ++ ascii "@media(prefers-color-scheme:dark){body{background:#1b1614;color:#f2ece7}"
    ++ ascii "p{color:#b8a99b}}"
    ++ ascii "</style>"
    ++ ascii "</head><body><main>"
    ++ ascii "<h1>You have been invited</h1>"
    ++ ascii "<p>Open this on the phone with Fox Academy installed to finish signing up.</p>"

unfoldable pub page_tail : Text
page_tail =
    ascii "<small>Nothing happens? Install Fox Academy first, then tap again.</small>"
    ++ ascii "</main></body></html>"

-- The document around a deep link.
abbrev pub document : Text → Text
document link =
    page_head
    ++ (ascii "<a class=\"open\" href=\""
        ++ (link ++ (ascii "\">Open Fox Academy</a>" ++ page_tail)))

-- `${base}/${token}`
abbrev pub deep_link : Text → Text → Text
deep_link base token = base ++ 47 ∷ token

-- Nothing where the answer is 404.
unfoldable pub page : Text → Text → Option Text
unfolding is_token
page base token = if not (is_token token) then none else some (document (deep_link base token))

-- The characters that HTML reads as markup: `<`, `>`, `"`, `'` and `&`.
abbrev pub is_markup : ℕ → Bool
is_markup c = c == 60 || c == 62 || c == 34 || c == 39 || c == 38

abbrev pub markup : Text → Text
markup s = filter is_markup s

markup-append : (s t : Text) → markup (s ++ t) ≡ markup s ++ markup t
markup-append [] t = ground arith
markup-append (c ∷ s) t = ground (arith, markup-append s t)

token-markup : (token : Text) → all is_token_char token ≡ true → markup token ≡ []
token-markup [] h = ground arith
token-markup (c ∷ s) h = ground (arith, h, token-markup s)

around-markup :
    (before l l' after : Text)
    → markup l ≡ markup l'
    → markup (before ++ (l ++ after)) ≡ markup (before ++ (l' ++ after))
around-markup before l l' after same =
    markup-append before (l ++ after)
    ∙ ap (λ m. markup before ++ m)
        (markup-append l after ∙ ap (λ m. m ++ markup after) same ∙ sym (markup-append l' after))
    ∙ sym (markup-append before (l' ++ after))

document-markup : (l l' : Text) → markup l ≡ markup l' → markup (document l) ≡ markup (document l')
document-markup l l' same =
    let opened : Text = ascii "<a class=\"open\" href=\"" in
    let closed : Text = ascii "\">Open Fox Academy</a>" ++ page_tail in
    markup-append page_head (opened ++ (l ++ closed))
    ∙ ap (λ m. markup page_head ++ m) (around-markup opened l l' closed same)
    ∙ sym (markup-append page_head (opened ++ (l' ++ closed)))

deep_link-markup :
    (base token : Text)
    → all is_token_char token ≡ true
    → markup (deep_link base token) ≡ markup (deep_link base [])
deep_link-markup base token h =
    markup-append base (47 ∷ token)
    ∙ ap (λ m. markup base ++ m) (token-markup token h)
    ∙ sym (markup-append base (47 ∷ []))

page-markup :
    (base token html : Text)
    → page base token ≡ some html
    → markup html ≡ markup (document (deep_link base []))
unfolding page is_token
page-markup base token html h = elim (Bool-cases (is_token token)) [
  | inr odd ↦ absurd (ground (arith, h, odd))
  | inl fine ↦
      let same : document (deep_link base token) ≡ html = ground (arith, h, fine) in
      rw (sym same) (
        document-markup (deep_link base token) (deep_link base [])
          (deep_link-markup base token (ground (arith, fine))))
]

-- Two pages that are served at one address of the app have the same markup, whatever was typed for their tokens: a token
-- adds no tag, no attribute and no reference.
pub pages_same_markup :
    (base t u html other_html : Text)
    → page base t ≡ some html
    → page base u ≡ some other_html
    → markup html ≡ markup other_html
pages_same_markup base t u html other_html h h' =
    page-markup base t html h ∙ sym (page-markup base u other_html h')
