-- ===== src/Foundation/Values.antt =====
-- crates/foundation/src/lib.rs: identities, idempotency keys, deadline windows and deadlines. A
-- `u64` is a native number, whose bound the checked addition writes out.
use Prim.Native.Char.{Char, code}
use Prim.Native.String.{[] as empty, ◌∷◌ as ◌∷ₛ◌, len}
use mobile_proxy.Base.{
  ℕ, ◌+◌, ◌-◌, ◌^◌, ◌<◌, ◌≤◌, String, Bool, true, false, not, ◌&&◌, ◌||◌, ◌≡◌, ◌↔◌, arith, leb, ltb,
  nat_beq, if◌then◌else◌, Result, ok, err, fail_if, ◌>>◌,
}

abbrev pub max_identity_length : ℕ
max_identity_length = 64

abbrev pub max_idempotency_key_length : ℕ
max_idempotency_key_length = 128

abbrev pub max_deadline_window_secs : ℕ
max_deadline_window_secs = 86400

pub data FoundationError : Type 0 where
  empty_value : String → FoundationError
  too_long : String → ℕ → FoundationError
  invalid_characters : String → FoundationError
  invalid_deadline_window deadline_overflow invalid_digest : FoundationError

-- Rust's `is_ascii_graphic`.
abbrev pub is_ascii_graphic : Char → Bool
is_ascii_graphic c = leb 33 (code c) && leb (code c) 126

-- ASCII letters and digits, and the characters - _ . : by their numbers.
unfoldable pub identity_character : Char → Bool
identity_character c =
    (leb 48 (code c) && leb (code c) 57)
    || (leb 65 (code c) && leb (code c) 90)
    || (leb 97 (code c) && leb (code c) 122)
    || nat_beq (code c) 45
    || nat_beq (code c) 95
    || nat_beq (code c) 46
    || nat_beq (code c) 58

-- `chars().all(p)`.
unfoldable pub all_chars : (Char → Bool) → String → Bool
all_chars p empty = true
all_chars p (c ∷ₛ s) = p c && all_chars p s

abbrev is_empty : String → Bool
is_empty s = nat_beq (len s) 0

unfoldable pub validate_identity : String → String → Result FoundationError String
validate_identity field value =
    fail_if (is_empty value) (empty_value field)
    >> fail_if (ltb max_identity_length (len value)) (too_long field max_identity_length)
    >> fail_if (not (all_chars identity_character value)) (invalid_characters field)
    >> ok value

-- `IdempotencyKey::parse`.
unfoldable pub parse_idempotency_key : String → Result FoundationError String
parse_idempotency_key value =
    fail_if (is_empty value) (empty_value "idempotency_key")
    >> fail_if (ltb max_idempotency_key_length (len value))
        (too_long "idempotency_key" max_idempotency_key_length)
    >> fail_if (not (all_chars is_ascii_graphic value)) (invalid_characters "idempotency_key")
    >> ok value

-- `DeadlineWindow::new`.
unfoldable pub deadline_window : ℕ → Result FoundationError ℕ
deadline_window seconds =
    fail_if (not (leb 1 seconds && leb seconds max_deadline_window_secs)) invalid_deadline_window
    >> ok seconds

-- `Deadline::from_now`, with `checked_add` at 64 bits.
unfoldable pub deadline_from_now : ℕ → ℕ → Result FoundationError ℕ
deadline_from_now now_unix_secs window =
    if ltb (now_unix_secs + window) (2 ^ 64)
    then ok (now_unix_secs + window)
    else err deadline_overflow

unfoldable pub deadline_is_expired : ℕ → ℕ → Bool
deadline_is_expired deadline now_unix_secs = leb deadline now_unix_secs

-- `saturating_sub`.
unfoldable pub remaining_secs : ℕ → ℕ → ℕ
remaining_secs deadline now_unix_secs = deadline - now_unix_secs

-- For a window that passes `DeadlineWindow::new`, the deadline taken at a time is in the range of
-- the clock exactly when that time is at least the window away from its end; it is then expired
-- at exactly the times that lie the window or more after it, and these are exactly the times with
-- no seconds remaining; and no time from its taking on has more than a day remaining.
pub deadline_from_now-expires :
    (now window deadline : ℕ)
    → deadline_window window ≡ ok window
    → ((deadline_from_now now window ≡ ok deadline)
        ↔ ((deadline ≡ now + window) × (now + window < 2 ^ 64)))
      × (deadline_from_now now window ≡ ok deadline
          → (later : ℕ)
          → ((deadline_is_expired deadline later ≡ true) ↔ (now + window ≤ later))
            × ((deadline_is_expired deadline later ≡ true) ↔ (remaining_secs deadline later ≡ 0))
            × (deadline_is_expired deadline now ≡ false)
            × (now ≤ later → remaining_secs deadline later ≤ max_deadline_window_secs))
unfolding deadline_window deadline_from_now deadline_is_expired remaining_secs
deadline_from_now-expires now window deadline h =
    (ground arith, λ taken later. (ground arith, ground arith, ground arith, λ after. ground arith))
