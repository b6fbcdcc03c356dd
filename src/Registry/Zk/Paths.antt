-- ===== src/Registry/Zk/Paths.antt =====
-- The paths that CreateNode of zk.go makes.
use go_moa.Base.{
  false, ◌≡◌, ◌≢◌, refl, ap, ◌∙◌, Text, List, [], ◌∷◌, ◌++◌, ◌||◌, All, Lacks, is_empty, text_eq,
  split, split_middle, split_of_Lacks, has_suffix, concat, concat_three, arith, append_assoc,
  append-nil,
}
use go_moa.Zookeeper.{zk_root, zk_path_delimiter, extend}
use go_moa.Registry.Zk.{addr_path}

-- A part of a path.
abbrev pub IsPart : Text → Type 0
IsPart p = (p ≢ []) × Lacks b'/' p

-- '/' and a part, for each part.
abbrev pub join : List Text → Text
join [] = []
join (p ∷ ps) = b'/' ∷ (p ++ join ps)

split-join_from :
    (p : Text) (ps : List Text) → Lacks b'/' p → All IsPart ps → split b'/' (p ++ join ps) ≡ p ∷ ps
split-join_from p [] h hs = rw (append-nil p) (split_of_Lacks b'/' p h)
split-join_from p (q ∷ ps) h (hq, hs) =
    split_middle b'/' p (q ++ join ps) h ∙ ap (λ r. p ∷ r) (split-join_from q ps hq.1 hs)

pub split-join : (ps : List Text) → ps ≢ [] → All IsPart ps → split b'/' (join ps) ≡ [] ∷ ps
split-join [] n h = absurd (n refl)
split-join (p ∷ ps) n (hp, hs) =
    split_middle b'/' [] (p ++ join ps) tt ∙ ap (λ r. [] ∷ r) (split-join_from p ps hp.1 hs)

pub ends_in_part : (p : Text) → Lacks b'/' p → has_suffix p zk_path_delimiter ≡ false
unfolding has_suffix text_eq
ends_in_part [] h = refl
ends_in_part (c ∷ p) h = ground (arith, ends_in_part p h.1, h.0)

has_end : (a p : Text) → p ≢ [] → text_eq (a ++ p) [] ≡ false
unfolding text_eq
has_end [] [] n = absurd (n refl)
has_end [] (c ∷ p) n = refl
has_end (c ∷ a) p n = refl

ends-append :
    (a p : Text) → p ≢ [] → has_suffix (a ++ p) zk_path_delimiter ≡ has_suffix p zk_path_delimiter
unfolding has_suffix text_eq
ends-append [] p n = refl
ends-append (c ∷ a) p n = ground (arith, ends-append a p n, has_end a p n)

-- A directory of the loop: "/" at first, and then a path that does not end in '/'.
abbrev pub dir_of : Text → Text
dir_of [] = zk_root
dir_of (c ∷ p) = c ∷ p

pub extend-dir_of :
    (dir p : Text)
    → has_suffix dir zk_path_delimiter ≡ false
    → extend (dir_of dir) p ≡ addr_path dir p
unfolding extend addr_path has_suffix text_eq concat
extend-dir_of [] p h = refl
extend-dir_of (c ∷ dir) p h = rw (h, extend) refl

pub below-ends : (dir p : Text) → IsPart p → has_suffix (addr_path dir p) zk_path_delimiter ≡ false
unfolding addr_path
below-ends dir p (n, l) = rw (concat_three dir zk_path_delimiter p) (
    ends-append dir (zk_path_delimiter ++ p) (λ e. cc)
    ∙ (ends-append zk_path_delimiter p n ∙ ends_in_part p l))

pub dir_of-addr_path : (dir p : Text) → dir_of (addr_path dir p) ≡ addr_path dir p
unfolding addr_path concat
dir_of-addr_path [] p = refl
dir_of-addr_path (c ∷ dir) p = refl

pub is_kept : (p : Text) → IsPart p → (is_empty p || text_eq p zk_root) ≡ false
unfolding text_eq
is_kept [] (n, l) = absurd (n refl)
is_kept (c ∷ p) (n, l) = ground (arith, l.0)

pub append-join :
    (dir p : Text) (ps : List Text) → addr_path dir p ++ join ps ≡ dir ++ join (p ∷ ps)
unfolding addr_path
append-join dir p ps =
    ap (λ t. t ++ join ps) (concat_three dir zk_path_delimiter p)
    ∙ append_assoc dir (b'/' ∷ p) (join ps)
