-- ===== src/Artifacts/Grep/Preview.antt =====
-- `_preview`: the length of what it shows.
use Prim.Native.String.{◌++◌ as append_text}
use Prim.Native.String.append
use dota_mind.Prelude.{
  ℕ, ◌+◌, ◌-◌, ◌/◌, ◌≤◌, ◌≡◌, inl, inr, min, leb, ltb, String, chars, drop_chars, chars-take_chars,
  Bool, true, false, if◌then◌else◌, arith, Bool-cases,
}
use dota_mind.Artifacts.Grep.{preview, slice}

chars-append : (s t : String) → chars (append_text s t) ≡ chars s + chars t
chars-append String.[] t = rw append.nil (omega arith)
chars-append (String.◌∷◌ c s) t = rw append.cons (omega (arith, chars-append s t))

chars-slice : (start stop : ℕ) (s : String) → chars (slice start stop s) ≤ stop - start
chars-slice start stop s = omega (arith, chars-take_chars (stop - start) (drop_chars start s))

chars_marker : (b : Bool) → chars (if b then "…" else "") ≤ 1
chars_marker true = omega arith
chars_marker false = omega arith

-- A preview has at most 200 characters.
pub preview_bounded : (value : String) (match_index : ℕ) → chars (preview value match_index) ≤ 200
unfolding preview
preview_bounded value match_index = elim (Bool-cases (leb (chars value) 200)) [
  | inl e ↦ rw e (ground (arith, e))
  | inr e ↦
      let stop = min (chars value) (match_index - 198 / 2 + 198) in
      let start = stop - 198 in
      let first : String = if ltb 0 start then "…" else "" in
      let last : String = if ltb stop (chars value) then "…" else "" in
      let body = slice start stop value in
      rw e (
        omega (
          arith,
          chars-append first (append_text body last),
          chars-append body last,
          chars-slice start stop value,
          chars_marker (ltb 0 start),
          chars_marker (ltb stop (chars value)),
        ))
]
