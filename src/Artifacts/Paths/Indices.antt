-- ===== src/Artifacts/Paths/Indices.antt =====
-- `str(index)` as a segment of a path: `int` reads it back.
use Prim.Native.Char.{code}
use Prim.Native.String.{◌++◌ as append_text}
use Prim.Native.String.append
use dota_mind.Prelude.{
  ℕ, zero, suc, ◌+◌, ◌*◌, ◌-◌, ◌/◌, ◌%◌, ◌==◌, ◌<◌, ◌≡◌, refl, inl, inr, true, ◌&&◌, String, arith,
  Bool-cases,
}
use dota_mind.Prelude.Decimal.{digit, digits_of, repr}
use dota_mind.Artifacts.Paths.{is_decimal, int_from}

int_from-append : (m : ℕ) (s t : String) → int_from m (append_text s t) ≡ int_from (int_from m s) t
int_from-append m String.[] t = rw append.nil refl
int_from-append m (String.◌∷◌ c s) t = rw append.cons (int_from-append (m * 10 + (code c - 48)) s t)

is_decimal-append : (s t : String) → is_decimal (append_text s t) ≡ (is_decimal s && is_decimal t)
is_decimal-append String.[] t = rw append.nil refl
is_decimal-append (String.◌∷◌ c s) t = rw append.cons (ground (arith, is_decimal-append s t))

int_from-digit : (m d : ℕ) → d < 10 → int_from m (digit d) ≡ m * 10 + d
int_from-digit m zero h = refl
int_from-digit m (suc zero) h = refl
int_from-digit m (suc (suc zero)) h = refl
int_from-digit m (suc (suc (suc zero))) h = refl
int_from-digit m (suc (suc (suc (suc zero)))) h = refl
int_from-digit m (suc (suc (suc (suc (suc zero))))) h = refl
int_from-digit m (suc (suc (suc (suc (suc (suc zero)))))) h = refl
int_from-digit m (suc (suc (suc (suc (suc (suc (suc zero))))))) h = refl
int_from-digit m (suc (suc (suc (suc (suc (suc (suc (suc zero)))))))) h = refl
int_from-digit m (suc (suc (suc (suc (suc (suc (suc (suc (suc zero))))))))) h = refl
int_from-digit m (suc (suc (suc (suc (suc (suc (suc (suc (suc (suc n)))))))))) h = omega (arith, h)

is_decimal-digit : (d : ℕ) → d < 10 → is_decimal (digit d) ≡ true
is_decimal-digit zero h = refl
is_decimal-digit (suc zero) h = refl
is_decimal-digit (suc (suc zero)) h = refl
is_decimal-digit (suc (suc (suc zero))) h = refl
is_decimal-digit (suc (suc (suc (suc zero)))) h = refl
is_decimal-digit (suc (suc (suc (suc (suc zero))))) h = refl
is_decimal-digit (suc (suc (suc (suc (suc (suc zero)))))) h = refl
is_decimal-digit (suc (suc (suc (suc (suc (suc (suc zero))))))) h = refl
is_decimal-digit (suc (suc (suc (suc (suc (suc (suc (suc zero)))))))) h = refl
is_decimal-digit (suc (suc (suc (suc (suc (suc (suc (suc (suc zero))))))))) h = refl
is_decimal-digit (suc (suc (suc (suc (suc (suc (suc (suc (suc (suc n)))))))))) h = ground (arith, h)

int_from-digits_of : (fuel n : ℕ) → n < fuel → int_from 0 (digits_of fuel n) ≡ n
unfolding digits_of
int_from-digits_of zero n h = omega (arith, h)
int_from-digits_of (suc fuel) n h = elim (Bool-cases (n / 10 == 0)) [
  | inl e ↦ rw e (let q = int_from-digit 0 n (ground (arith, e)) in omega (arith, q))
  | inr e ↦
      rw
        (
          e,
          int_from-append 0 (digits_of fuel (n / 10)) (digit (n % 10)),
          int_from-digits_of fuel (n / 10) (ground (arith, h, e)),
        )
        (let q = int_from-digit (n / 10) (n % 10) (omega arith) in omega (arith, q))
]

is_decimal-digits_of : (fuel n : ℕ) → is_decimal (digits_of fuel n) ≡ true
unfolding digits_of
is_decimal-digits_of zero n = refl
is_decimal-digits_of (suc fuel) n = elim (Bool-cases (n / 10 == 0)) [
  | inl e ↦ rw e (is_decimal-digit n (ground (arith, e)))
  | inr e ↦
      rw
        (
          e,
          is_decimal-append (digits_of fuel (n / 10)) (digit (n % 10)),
          is_decimal-digits_of fuel (n / 10),
        )
        (is_decimal-digit (n % 10) (omega arith))
]

pub int_from-repr : (n : ℕ) → int_from 0 (repr n) ≡ n
unfolding repr
int_from-repr n = int_from-digits_of (n + 1) n (omega arith)

pub is_decimal-repr : (n : ℕ) → is_decimal (repr n) ≡ true
unfolding repr
is_decimal-repr n = is_decimal-digits_of (n + 1) n
