-- ===== src/Application/Pages/Template.antt =====
-- The template of the index page in application.go.
use go_moa.Base.{
  Text, codes, true, ◌≡◌, refl, List, [], ◌∷◌, ◌++◌, All, has_infix, inl, inr, arith, Bool-cases,
  has_prefix, has_prefix-append,
}
use go_moa.Application.Pages.{MoaProfile}

-- html/template writes a field as its context asks: in an address, or in text.
pub record Escapes : Type 0 where
  pub in_url : Text → Text
  pub in_text : Text → Text

abbrev page_head : Text
page_head =
    codes "<html>\n<head>\n<title>/debug/moa/</title>\n<style>\n.profile-name{\n"
    ++ codes "\tdisplay:inline-block;\n\twidth:6rem;\n}\n</style>\n</head>\n<body>\n"
    ++ codes "/debug/moa/<br>\n<br>\nTypes of moaprofiles available:\n<table>\n"
    ++ codes "<thead><td>moa</td></thead>\n"

abbrev page_end : Text
page_end = codes "\n</table>\n</body>\n</html>\n"

abbrev link : Escapes → MoaProfile → Text
link e p = codes "<a href=" ++ e.in_url p.href ++ codes ">" ++ e.in_text p.name ++ codes "</a>"

-- A row behind its link.
abbrev row_end : Escapes → MoaProfile → Text
row_end e p = codes "</td>\n\t   <td><p>" ++ e.in_text p.desc ++ codes "</p></td>\n\t</tr>\n"

abbrev row : Escapes → MoaProfile → Text
row e p = codes "\n\t<tr>\n\t\t<td>" ++ (link e p ++ row_end e p)

abbrev rows : Escapes → List MoaProfile → Text
rows e [] = []
rows e (p ∷ ps) = row e p ++ rows e ps

unfoldable pub index_tmpl : Escapes → List MoaProfile → Text
index_tmpl e ps = page_head ++ rows e ps ++ page_end

has_prefix-longer : (s p b : Text) → has_prefix s p ≡ true → has_prefix (s ++ b) p ≡ true
unfolding has_prefix
has_prefix-longer s [] b h = refl
has_prefix-longer [] (c ∷ p) b h = cc
has_prefix-longer (a ∷ s) (c ∷ p) b h = ground (arith, h, has_prefix-longer s p b)

has_infix-prefix : (s p : Text) → has_prefix s p ≡ true → has_infix s p ≡ true
unfolding has_infix
has_infix-prefix [] p h = h
has_infix-prefix (a ∷ s) p h = ground (arith, h)

has_infix-after : (a s p : Text) → has_infix s p ≡ true → has_infix (a ++ s) p ≡ true
unfolding has_infix
has_infix-after [] s p h = h
has_infix-after (c ∷ a) s p h = ground (arith, has_infix-after a s p h)

has_infix-before : (s b p : Text) → has_infix s p ≡ true → has_infix (s ++ b) p ≡ true
unfolding has_infix
has_infix-before [] b p h = has_infix-prefix b p (has_prefix-longer [] p b h)
has_infix-before (a ∷ s) b p h = elim (Bool-cases (has_prefix (a ∷ s) p)) [
  | inl k ↦ rw (has_prefix-longer (a ∷ s) p b k) refl
  | inr k ↦ ground (arith, has_infix-before s b p (rw k at h))
]

All-map :
    {P Q : MoaProfile → Type 0} (ps : List MoaProfile)
    → ((p : MoaProfile) → P p → Q p)
    → All P ps
    → All Q ps
All-map [] f h = tt
All-map (p ∷ ps) f (h, hs) = (f p h, All-map ps f hs)

module _ (e : Escapes) where
  row-link : (p : MoaProfile) → has_infix (row e p) (link e p) ≡ true
  row-link p = has_infix-after (codes "\n\t<tr>\n\t\t<td>") (link e p ++ row_end e p) (link e p) (
      has_infix-prefix (link e p ++ row_end e p) (link e p)
        (has_prefix-append (link e p) (row_end e p)))

  rows-links : (ps : List MoaProfile) → All (λ p. has_infix (rows e ps) (link e p) ≡ true) ps
  rows-links [] = tt
  rows-links (p ∷ ps) = (
    has_infix-before (row e p) (rows e ps) (link e p) (row-link p),
    All-map ps (λ q h. has_infix-after (row e p) (rows e ps) (link e q) h) (rows-links ps),
  )

  -- The index page links to the address of every profile.
  index_tmpl-links :
      (ps : List MoaProfile) → All (λ p. has_infix (index_tmpl e ps) (link e p) ≡ true) ps
  unfolding index_tmpl
  index_tmpl-links ps =
      All-map ps
        (λ p h.
          has_infix-after page_head (rows e ps ++ page_end) (link e p)
            (has_infix-before (rows e ps) page_end (link e p) h))
        (rows-links ps)
