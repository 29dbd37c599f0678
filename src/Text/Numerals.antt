-- ===== src/Text/Numerals.antt =====
-- `int` reads back what `str` writes.
use Prim.Native.Char.{code}
use iot_lab_gateway.Prelude.{
  ℕ, zero, suc, ◌+◌, ◌*◌, ◌/◌, ◌%◌, ◌<◌, String, ◌≡◌, refl, inl, inr, some, arith, ltb, Bool-cases,
  ◌∙◌, ap,
}
use iot_lab_gateway.Prelude.Int.{pos, negsuc}
use iot_lab_gateway.Text.{read_digits, digit, render, str, hex, parse_int}

code-digit : (d : ℕ) → d < 10 → code (digit d) ≡ 48 + d
code-digit zero h = refl
code-digit (suc zero) h = refl
code-digit (suc (suc zero)) h = refl
code-digit (suc (suc (suc zero))) h = refl
code-digit (suc (suc (suc (suc zero)))) h = refl
code-digit (suc (suc (suc (suc (suc zero))))) h = refl
code-digit (suc (suc (suc (suc (suc (suc zero)))))) h = refl
code-digit (suc (suc (suc (suc (suc (suc (suc zero))))))) h = refl
code-digit (suc (suc (suc (suc (suc (suc (suc (suc zero)))))))) h = refl
code-digit (suc (suc (suc (suc (suc (suc (suc (suc (suc zero))))))))) h = refl
code-digit (suc (suc (suc (suc (suc (suc (suc (suc (suc (suc d)))))))))) h = absurd (omega arith)

read_digits-digit :
    (d acc : ℕ) (s : String)
    → d < 10
    → read_digits acc (String.◌∷◌ (digit d) s) ≡ read_digits (acc * 10 + d) s
unfolding read_digits
read_digits-digit d acc s h = ground (arith, code-digit d h)

-- With enough fuel the digits of `n` are read as `n`, whatever stands behind them.
pub read_digits-render :
    (fuel n : ℕ) (s : String) → n < fuel → read_digits 0 (render fuel 10 n s) ≡ read_digits n s
unfolding render
read_digits-render zero n s h = elim h [ ]
read_digits-render (suc fuel) n s h = elim (Bool-cases (ltb n 10)) [
  | inl small ↦
      rw small (read_digits-digit n 0 s (ground arith) ∙ ap (λ k. read_digits k s) (omega arith))
  | inr big ↦ rw big (
      read_digits-render fuel (n / 10) (String.◌∷◌ (digit (n % 10)) s) (ground arith)
      ∙ read_digits-digit (n % 10) (n / 10) s (omega arith)
      ∙ ap (λ k. read_digits k s) (omega arith))
]

pub read_digits-str : (n : ℕ) → read_digits 0 (str n) ≡ some n
unfolding str read_digits
read_digits-str n = read_digits-render (suc n) n "" (omega arith)

tests : (str 907 ≡ "907") × (hex (pos 4096) ≡ "0x1000") × (parse_int " -12\n" ≡ some (negsuc 11))
unfolding str hex parse_int
tests = (refl, refl, refl)
