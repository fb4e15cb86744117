-- ===== src/Manager/Manifest/Seen.antt =====
-- The keys that have been seen, as `seen` of launcher/manager_model.cpp keeps them.
use ffb_interceptor_visualiz.Common.{◌≡◌, refl, true, List, [], ◌∷◌, ◌++◌, arith, ◌⊎◌}
use ffb_interceptor_visualiz.Manager.Elevated.{Text, text_eq}
use ffb_interceptor_visualiz.Manager.Manifest.{is_seen}

text_eq_self : (a : Text) → text_eq a a ≡ true
unfolding text_eq
text_eq_self [] = refl
text_eq_self (c ∷ cs) = ground (arith, text_eq_self cs)

pub is_seen-front :
    (key : Text) (ks ls : List Text) → is_seen key ks ≡ true → is_seen key (ks ++ ls) ≡ true
unfolding is_seen
is_seen-front key [] ls h = cc
is_seen-front key (k ∷ ks) ls h = ground (arith, is_seen-front key ks ls)

pub is_seen-last : (key : Text) (ks : List Text) → is_seen key (ks ++ key ∷ []) ≡ true
unfolding is_seen
is_seen-last key [] = ground (arith, text_eq_self key)
is_seen-last key (k ∷ ks) = ground (arith, is_seen-last key ks)

-- A key of the extended list is the last one, or was there.
pub is_seen-append :
    (key last : Text) (ks : List Text)
    → is_seen key (ks ++ last ∷ []) ≡ true
    → (is_seen key ks ≡ true) ⊎ (text_eq key last ≡ true)
unfolding is_seen
is_seen-append key last [] h = ground arith
is_seen-append key last (k ∷ ks) h = ground (arith, is_seen-append key last ks)
