-- ===== src/Wire/Agree.antt =====
-- What it means that a writer and a reader agree on a value, with a rule for each of their parts.
use ffb_interceptor_visualiz.Common.{
  ℕ, zero, suc, ◌/◌, ◌%◌, ◌^◌, ◌≡◌, refl, sym, ap, ◌∙◌, some, List, [], ◌∷◌, ◌++◌, append-nil,
  append_assoc, arith, length, take, ℤ, to_u32, to_u32-lt, to_i32-to_u32, IsI32, IsU16, IsU32,
  IsU64, All,
}
use ffb_interceptor_visualiz.Wire.Model.{ConditionSample, IsSample}
use ffb_interceptor_visualiz.Wire.Writer.{
  Writer, ◌>>◌, insert_end, put_u16, put_u32, put_u64, put_i32, put_guid, put_condition,
  put_fixed_string, put_each,
}
use ffb_interceptor_visualiz.Wire.Reader.{
  Reader, ◌>>=◌, done, get_u16, get_u32, get_u64, get_i32, get_exact, get_each, get_condition,
}

-- The writer appends, and the reader takes what was written, to the last byte, for `a`.
pub record Agree {A : Type 0} (w : Writer) (r : Reader A) (a : A) : Type 0 where
  pub appends : (out : List ℕ) → w out ≡ out ++ w []
  pub reads : (rest : List ℕ) → r (w [] ++ rest) ≡ some (a, rest)

module _ {A B : Type 0} where
  -- One value after another.
  pub Agree-bind :
      {m k : Writer} {r : Reader A} {a : A} {b : B} (f : A → Reader B)
      → Agree m r a
      → Agree k (f a) b
      → Agree (m >> k) (r >>= f) b
  Agree-bind {m} {k} {r} {a} {b} f h g = record {
    appends = λ out.
        rw (g.appends (m out), h.appends out, g.appends (m [])) (append_assoc out (m []) (k []));
    reads = λ rest.
        rw (g.appends (m []), append_assoc (m []) (k []) rest, h.reads (k [] ++ rest))
          (g.reads rest);
  }

  -- A value that the reader uses.
  pub Agree-map :
      {w : Writer} {r : Reader A} {a : A} (f : A → B)
      → Agree w r a
      → Agree w (r >>= λ x. done (f x)) (f a)
  Agree-map {w} {r} {a} f h = record { appends = h.appends; reads = λ rest. rw (h.reads rest) }

pub Agree-u16 : (v : ℕ) → IsU16 v → Agree (put_u16 v) get_u16 v
unfolding put_u16 get_u16
Agree-u16 v h = record {
  appends = λ out. append_assoc out (v % 256 ∷ []) (v / 2 ^ 8 % 256 ∷ []);
  reads = λ rest. ground arith;
}

pub Agree-u32 : (v : ℕ) → IsU32 v → Agree (put_u32 v) get_u32 v
unfolding put_u32 get_u32
Agree-u32 v h = record { appends = λ out. simp append_assoc; reads = λ rest. ground arith }

pub Agree-u64 : (v : ℕ) → IsU64 v → Agree (put_u64 v) get_u64 v
unfolding put_u64 get_u64
Agree-u64 v h = record { appends = λ out. simp append_assoc; reads = λ rest. ground arith }

pub Agree-i32 : (z : ℤ) → IsI32 z → Agree (put_i32 z) get_i32 z
unfolding put_i32 get_i32
Agree-i32 z h =
    let word = Agree-u32 (to_u32 z) (to_u32-lt z) in
    record { appends = word.appends; reads = λ rest. rw (word.reads rest, to_i32-to_u32 z h) }

get_exact-append :
    (n : ℕ) (xs rest : List ℕ) → length xs ≡ n → get_exact n (xs ++ rest) ≡ some (xs, rest)
unfolding get_exact
get_exact-append zero [] rest h = refl
get_exact-append zero (x ∷ xs) rest h = absurd (omega arith)
get_exact-append (suc n) [] rest h = absurd (omega arith)
get_exact-append (suc n) (x ∷ xs) rest h = rw (get_exact-append n xs rest (omega arith))

pub Agree-exact : (n : ℕ) (xs : List ℕ) → length xs ≡ n → Agree (insert_end xs) (get_exact n) xs
Agree-exact n xs h = record { appends = λ out. refl; reads = λ rest. get_exact-append n xs rest h }

pub Agree-guid : (xs : List ℕ) → length xs ≡ 16 → Agree (put_guid xs) (get_exact 16) xs
unfolding put_guid
Agree-guid xs h = Agree-exact 16 xs h

take_all {ℓ} : {A : Type ℓ} (n : ℕ) (xs : List A) → length xs ≡ n → take n xs ≡ xs
take_all zero [] h = refl
take_all zero (x ∷ xs) h = absurd (omega arith)
take_all (suc n) [] h = refl
take_all (suc n) (x ∷ xs) h = ap (λ t. x ∷ t) (take_all n xs (omega arith))

pub Agree-fixed :
    (n : ℕ) (xs : List ℕ) → length xs ≡ n → Agree (put_fixed_string xs n) (get_exact n) xs
unfolding put_fixed_string
Agree-fixed n xs h = rw (take_all n xs h) (Agree-exact n xs h)

put_each-append {ℓ} :
    {A : Type ℓ} (put : A → Writer) (xs : List A) (out : List ℕ)
    → ((x : A) (out : List ℕ) → put x out ≡ out ++ put x [])
    → put_each put xs out ≡ out ++ put_each put xs []
unfolding put_each
put_each-append put [] out h = sym (append-nil out)
put_each-append put (x ∷ xs) out h =
    put_each-append put xs (put x out) h
    ∙ rw (h x out, put_each-append put xs (put x []) h) (append_assoc out (put x []) _)

module _ {A : Type 0} (put : A → Writer) (get : Reader A) (P : A → Type 0) where
  get_each-put_each :
      (n : ℕ) (xs : List A) (rest : List ℕ)
      → ((x : A) (out : List ℕ) → put x out ≡ out ++ put x [])
      → ((x : A) → P x → Agree (put x) get x)
      → length xs ≡ n
      → All P xs
      → get_each get n (put_each put xs [] ++ rest) ≡ some (xs, rest)
  unfolding get_each put_each
  get_each-put_each zero [] rest ha h e k = refl
  get_each-put_each zero (x ∷ xs) rest ha h e k = absurd (omega arith)
  get_each-put_each (suc n) [] rest ha h e k = absurd (omega arith)
  get_each-put_each (suc n) (x ∷ xs) rest ha h e k = rw (
    put_each-append put xs (put x []) ha,
    append_assoc (put x []) (put_each put xs []) rest,
    (h x k.0).reads (put_each put xs [] ++ rest),
    get_each-put_each n xs rest ha h (omega arith) k.1,
  )

  pub Agree-each :
      (n : ℕ) (xs : List A)
      → ((x : A) (out : List ℕ) → put x out ≡ out ++ put x [])
      → ((x : A) → P x → Agree (put x) get x)
      → length xs ≡ n
      → All P xs
      → Agree (put_each put xs) (get_each get n) xs
  Agree-each n xs ha h e k = record {
    appends = λ out. put_each-append put xs out ha;
    reads = λ rest. get_each-put_each n xs rest ha h e k;
  }

pub put_i32-appends : (z : ℤ) (out : List ℕ) → put_i32 z out ≡ out ++ put_i32 z []
unfolding put_i32 put_u32
put_i32-appends z out = simp append_assoc

pub put_condition-appends :
    (s : ConditionSample) (out : List ℕ) → put_condition s out ≡ out ++ put_condition s []
unfolding put_condition put_i32 put_u32
put_condition-appends s out = simp append_assoc

pub Agree-condition : (s : ConditionSample) → IsSample s → Agree (put_condition s) get_condition s
unfolding put_condition get_condition
Agree-condition s v = Agree-bind _ (Agree-i32 s.offset v.offset_fits) (
    Agree-bind _ (Agree-i32 s.positive_coefficient v.positive_coefficient_fits) (
      Agree-bind _ (Agree-i32 s.negative_coefficient v.negative_coefficient_fits) (
        Agree-bind _ (Agree-u32 s.positive_saturation v.positive_saturation_fits) (
          Agree-bind _ (Agree-u32 s.negative_saturation v.negative_saturation_fits)
            (Agree-map _ (Agree-i32 s.dead_band v.dead_band_fits))))))
