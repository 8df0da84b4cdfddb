-- ===== src/Config/Restart.antt =====
-- internal/config/config.go: the secret that one start stores is the one that the next start reads.
use Prim.Native.Char.{Char, code, len_utf8}
use Prim.Native.String.len
use text.Mathlib.TextPositions.{len_utf8-pos}
use ai_website_builder.Common.{
  ℕ, zero, suc, ◌+◌, ◌/◌, ◌%◌, ◌≤◌, String, true, false, ◌==◌, ◌≡◌, ◌∙◌, refl, ap, Option, none,
  some, List, [], ◌∷◌, length, byte_len, leb, Bool-cases, inl, inr, arith, eq_iff,
}
use ai_website_builder.Common.Dict.{Dict, lookup, insert, lookup-insert}
use ai_website_builder.Common.Strings.{trim_space, trim_left, trim_right, is_space, nth_char}
use ai_website_builder.Config.{
  Config, Written, whole, hex_digit, hex_encode, write_file, new_secret, secret_or,
  persistent_secret, with_secret, config_of, load_dot_env, load,
}

NoSpace : String → Type 0
NoSpace String.[] = Unit
NoSpace (String.◌∷◌ c s) = (is_space (code c) ≡ false) × NoSpace s

nth_char-NoSpace :
    (s : String) (n : ℕ) (default : Char)
    → NoSpace s
    → is_space (code default) ≡ false
    → is_space (code (nth_char s n default)) ≡ false
unfolding NoSpace
nth_char-NoSpace String.[] n default h d = d
nth_char-NoSpace (String.◌∷◌ c s) zero default h d = h.0
nth_char-NoSpace (String.◌∷◌ c s) (suc n) default h d = nth_char-NoSpace s n default h.1 d

digits-NoSpace : NoSpace "0123456789abcdef"
unfolding NoSpace
digits-NoSpace = (
  refl,
  (
    refl,
    (
      refl,
      (
        refl,
        (
          refl,
          (
            refl,
            (refl, (refl, (refl, (refl, (refl, (refl, (refl, (refl, (refl, (refl, tt)))))))))),
          ),
        ),
      ),
    ),
  ),
)

hex_encode-NoSpace : (bytes : List ℕ) → NoSpace (hex_encode bytes)
unfolding NoSpace hex_encode
hex_encode-NoSpace [] = tt
hex_encode-NoSpace (b ∷ bytes) = (
  nth_char-NoSpace "0123456789abcdef" (b / 16) "0" digits-NoSpace refl,
  (nth_char-NoSpace "0123456789abcdef" (b % 16) "0" digits-NoSpace refl, hex_encode-NoSpace bytes),
)

trim_right-NoSpace : (s : String) → NoSpace s → trim_right is_space s ≡ s
unfolding NoSpace trim_right
trim_right-NoSpace String.[] h = refl
trim_right-NoSpace (String.◌∷◌ c s) h = rw (h.0) (ap (String.◌∷◌ c) (trim_right-NoSpace s h.1))

trim_space-NoSpace : (s : String) → NoSpace s → trim_space s ≡ s
unfolding NoSpace trim_space trim_left
trim_space-NoSpace String.[] h = trim_right-NoSpace "" tt
trim_space-NoSpace (String.◌∷◌ c s) h = rw (h.0) (trim_right-NoSpace (String.◌∷◌ c s) h)

byte_len-cons : (c : Char) (s : String) → suc (byte_len s) ≤ byte_len (String.◌∷◌ c s)
byte_len-cons c s =
    let split : byte_len (String.◌∷◌ c s) ≡ len_utf8 c + byte_len s = len.cons c s in
    let (k, size) = len_utf8-pos c in omega (arith, split, size)

hex_encode-long : (bytes : List ℕ) → length bytes + length bytes ≤ byte_len (hex_encode bytes)
unfolding hex_encode
hex_encode-long [] = omega arith
hex_encode-long (b ∷ bytes) =
    let low = String.◌∷◌ (hex_digit (b % 16)) (hex_encode bytes) in
    omega (
      arith,
      hex_encode-long bytes,
      byte_len-cons (hex_digit (b % 16)) (hex_encode bytes),
      byte_len-cons (hex_digit (b / 16)) low,
    )

-- A secret and the disk with it, which the next start finds again.
Kept : String → Option (List ℕ) → Written → Option (String × Dict String) → Type 0
Kept path random written r =
    (secret : String) × (disk1 : Dict String) × (r ≡ some (secret, disk1))
    × (persistent_secret path random written disk1 ≡ some (secret, disk1))

found-Kept :
    (path stored : String) (random : Option (List ℕ)) (written : Written) (disk : Dict String)
    → lookup path disk ≡ some stored
    → leb 32 (byte_len stored) ≡ true
    → persistent_secret path random written disk ≡ some (trim_space stored, disk)
unfolding persistent_secret secret_or
found-Kept path stored random written disk e long = rw (e, long) refl

new-Kept :
    (path : String) (bytes : List ℕ) (random : Option (List ℕ)) (written : Written)
    (disk : Dict String)
    → 16 ≤ length bytes
    → Kept path random written (new_secret path (some bytes) whole disk)
unfolding Kept new_secret write_file
new-Kept path bytes random written disk enough =
    let secret = hex_encode bytes in
    let stored : lookup path (insert path secret disk) ≡ some secret =
      lookup-insert path path secret disk ∙ rw ((eq_iff path path).1 refl) refl in
    let long : leb 32 (byte_len secret) ≡ true = ground (arith, enough, hex_encode-long bytes) in
    (
      secret,
      insert path secret disk,
      refl,
      found-Kept path secret random written (insert path secret disk) stored long
          ∙ ap (λ s. some (s, insert path secret disk))
              (trim_space-NoSpace secret (hex_encode-NoSpace bytes)),
    )

secret-Kept :
    (path : String) (bytes : List ℕ) (random : Option (List ℕ)) (written : Written)
    (disk : Dict String) (o : Option String)
    → 16 ≤ length bytes
    → lookup path disk ≡ o
    → Kept path random written (secret_or (new_secret path (some bytes) whole disk) disk o)
unfolding Kept secret_or
secret-Kept path bytes random written disk none enough e =
    new-Kept path bytes random written disk enough
secret-Kept path bytes random written disk (some stored) enough e =
    elim (Bool-cases (leb 32 (byte_len stored))) [
      | inl long ↦
          rw long (trim_space stored, disk, refl, found-Kept path stored random written disk e long)
      | inr short ↦ rw short (new-Kept path bytes random written disk enough)
    ]

-- A start that gets at least 16 random bytes (the code asks for 32), and writes the secret whole
-- if it has to, yields a configuration, and the next start, in the same environment with the same
-- .env, yields the same one and changes nothing on the disk, whatever its own random bytes are and
-- whatever was stored before the first.
pub load_restart :
    (join : String → String → String) (dot_env : Option (List String)) (bytes : List ℕ)
    (random : Option (List ℕ)) (written : Written) (env disk : Dict String)
    → 16 ≤ length bytes
    → (cfg : Config) × (disk1 : Dict String) × (load join dot_env (some bytes) whole env disk
        ≡ some (cfg, disk1))
      × (load join dot_env random written env disk1 ≡ some (cfg, disk1))
unfolding load persistent_secret Kept
load_restart join dot_env bytes random written env disk enough =
    let cfg = config_of (load_dot_env dot_env env) in
    let path = join cfg.data_dir ".jwt_secret" in
    elim (Bool-cases (cfg.jwt_secret == "")) [
      | inl missing ↦
          (let (secret, disk1, first, next) =
              secret-Kept path bytes random written disk (lookup path disk) enough refl in
            (
              record cfg { jwt_secret = secret },
              disk1,
              rw missing (ap (with_secret cfg) first),
              rw missing (ap (with_secret cfg) next),
            ))
      | inr given ↦ (cfg, disk, rw given refl, rw given refl)
    ]
