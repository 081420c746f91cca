-- ===== src/Webhooks/Url.antt =====
-- webhook-url.ts: which targets a webhook may have.
-- Parameters: `parse_url` is `new URL`, `is_ip4` and `is_ip6` are node's `net.isIPv4` and `net.isIPv6`, and
-- `lookup` is `dns.lookup` of all addresses, `none` where it throws.
use booking_system.Base.{
  ℕ, ◌+◌, ◌*◌, ◌-◌, ◌/◌, ◌%◌, ◌≡◌, refl, sym, ap, ◌∙◌, inl, inr, Bool, true, false, not, ◌&&◌, ◌||◌,
  Option, none, some, List, [], ◌∷◌, ◌++◌, Text, codes, text_eq, to_lower_case, includes_text,
  is_empty, split, read_digits, is_digit, all, length, if◌then◌else◌, ◌==◌, leb, Result, ok, err,
  ◌>>=◌, ◌>>◌, throw_if, or_throw, bad_request, unsafe_target, Bool-cases,
}

-- What the check reads of a `URL`.
pub record Url : Type 0 where
  pub protocol : Text
  pub username : Text
  pub password : Text
  pub hostname : Text

abbrev pub blocked_hostnames : List Text
blocked_hostnames =
    codes "localhost" ∷ codes "metadata.google.internal" ∷ codes "metadata.azure.com" ∷ []

abbrev pub blocked_ips : List Text
blocked_ips = codes "169.254.169.254" ∷ codes "fd00:ec2::254" ∷ []

abbrev unsafe : Result (Unit {0})
unsafe = err (bad_request unsafe_target)

-- The first two numbers of `addr.split('.')`; a missing one is NaN, which passes each test.
unfoldable pub check_octets : List Text → Result (Unit {0})
unfolding read_digits
check_octets (x ∷ y ∷ more) =
    let a = read_digits 0 x in
    let b = read_digits 0 y in
    throw_if
      (a == 10
        || (a == 172 && leb 16 b && leb b 31)
        || (a == 192 && b == 168)
        || a == 127
        || (a == 169 && b == 254)
        || a == 0
        || leb 224 a)
      (bad_request unsafe_target)
check_octets xs = ok tt

unfoldable pub starts_with : Text → Text → Bool
starts_with [] s = true
starts_with (p ∷ ps) [] = false
starts_with (p ∷ ps) (c ∷ s) = p == c && starts_with ps s

abbrev pub mapped_prefix : Text
mapped_prefix = codes "::ffff:"

-- The rest of an IPv4-mapped address.
unfoldable pub after_mapped : Text → Option Text
after_mapped (a ∷ b ∷ c ∷ d ∷ e ∷ f ∷ g ∷ s) =
    if a == 58 && b == 58 && c == 102 && d == 102 && e == 102 && f == 102 && g == 58
    then some s
    else none
after_mapped s = none

abbrev is_hex : ℕ → Bool
is_hex c = is_digit c || (leb 97 c && leb c 102)

abbrev hex_value : ℕ → ℕ
hex_value c = if is_digit c then c - 48 else c - 87

unfoldable pub read_hex : ℕ → Text → ℕ
read_hex n [] = n
read_hex n (c ∷ s) = read_hex (n * 16 + hex_value c) s

-- A group of one to four hexadecimal digits.
abbrev is_group : Text → Bool
is_group s = not (is_empty s) && leb (length s) 4 && all is_hex s

-- The decimal text of a byte.
unfoldable pub byte_text : ℕ → Text
byte_text n =
    if leb 100 n
    then (48 + n / 100) ∷ (48 + n / 10 % 10) ∷ (48 + n % 10) ∷ []
    else if leb 10 n
    then (48 + n / 10) ∷ (48 + n % 10) ∷ []
    else (48 + n) ∷ []

unfoldable pub hex_address : ℕ → ℕ → Text
unfolding byte_text
hex_address hi lo =
    byte_text (hi / 256 % 256)
    ++ (46 ∷ byte_text (hi % 256))
    ++ (46 ∷ byte_text (lo / 256 % 256))
    ++ (46 ∷ byte_text (lo % 256))

-- The two groups of `/^([0-9a-f]{1,4}):([0-9a-f]{1,4})$/`.
unfoldable pub hex_groups : List Text → Option Text
unfolding hex_address read_hex
hex_groups (x ∷ y ∷ []) =
    if is_group x && is_group y then some (hex_address (read_hex 0 x) (read_hex 0 y)) else none
hex_groups xs = none

module _ (is_ip4 is_ip6 : Text → Bool) where
  unfoldable pub unwrap_rest : Option Text → Option Text
  unfolding hex_groups split
  unwrap_rest none = none
  unwrap_rest (some rest) = if is_ip4 rest then some rest else hex_groups (split 58 rest)

  -- `unwrapMappedV4`
  abbrev pub unwrap_mapped_v4 : Text → Option Text
  unwrap_mapped_v4 lower = unwrap_rest (after_mapped lower)

  -- `assertSafeIP` of an IPv4 text, as of one that a mapped address holds.
  unfoldable pub assert_safe_v4 : Text → Result (Unit {0})
  unfolding text_eq check_octets split
  assert_safe_v4 addr =
      if includes_text blocked_ips addr then unsafe else check_octets (split 46 addr)

  abbrev pub assert_safe_v6 : Option Text → Text → Result (Unit {0})
  assert_safe_v6 (some v4) lower = assert_safe_v4 v4
  assert_safe_v6 none lower =
      throw_if
        (text_eq lower (codes "::1")
          || text_eq lower (codes "::")
          || starts_with (codes "fc") lower
          || starts_with (codes "fd") lower
          || starts_with (codes "fe80") lower
          || starts_with (codes "ff") lower)
        (bad_request unsafe_target)

  unfoldable pub assert_safe_ip : Text → Result (Unit {0})
  assert_safe_ip addr =
      if includes_text blocked_ips addr
      then unsafe
      else if is_ip4 addr
      then assert_safe_v4 addr
      else if is_ip6 addr
      then assert_safe_v6 (unwrap_mapped_v4 (to_lower_case addr)) (to_lower_case addr)
      else unsafe

  unfoldable pub all_safe : List Text → Result (Unit {0})
  all_safe [] = ok tt
  all_safe (a ∷ more) = assert_safe_ip a >> all_safe more

  module _ (parse_url : Text → Option Url) (lookup : Text → Option (List Text))
      (allow_http : Bool) where
    abbrev pub assert_host : Text → Result (Unit {0})
    assert_host host =
        if is_ip4 host || is_ip6 host
        then assert_safe_ip host
        else (or_throw (lookup host) (bad_request unsafe_target) >>= λ addrs.
            throw_if (is_empty addrs) (bad_request unsafe_target) >> all_safe addrs)

    unfoldable pub validate_webhook_target_url : Text → Result (Unit {0})
    validate_webhook_target_url raw = do
      throw_if (is_empty raw) (bad_request unsafe_target)
      u ← or_throw (parse_url raw) (bad_request unsafe_target)
      throw_if
          (not (text_eq u.protocol (codes "https:"))
            && not (allow_http && text_eq u.protocol (codes "http:")))
          (bad_request unsafe_target)
      throw_if (not (is_empty u.username && is_empty u.password)) (bad_request unsafe_target)
      throw_if (includes_text blocked_hostnames (to_lower_case u.hostname))
          (bad_request unsafe_target)
      assert_host (to_lower_case u.hostname)

  -- The parts of a mapped address.
  blocked_mapped : (v4 : Text) → includes_text blocked_ips (mapped_prefix ++ v4) ≡ false
  unfolding text_eq
  blocked_mapped v4 = refl

  lower_mapped :
      (v4 : Text) → to_lower_case (mapped_prefix ++ v4) ≡ mapped_prefix ++ to_lower_case v4
  unfolding to_lower_case
  lower_mapped v4 = refl

  unwrap_mapped : (v4 : Text) → is_ip4 v4 ≡ true → unwrap_mapped_v4 (mapped_prefix ++ v4) ≡ some v4
  unfolding after_mapped unwrap_rest
  unwrap_mapped v4 a = rw a refl

  assert_safe_ip-v4 : (v4 : Text) → is_ip4 v4 ≡ true → assert_safe_ip v4 ≡ assert_safe_v4 v4
  unfolding assert_safe_ip assert_safe_v4
  assert_safe_ip-v4 v4 a = elim (Bool-cases (includes_text blocked_ips v4)) [
    | inl e ↦ rw e refl
    | inr e ↦ rw (e, a) refl
  ]

  assert_safe_ip-v6 :
      (addr lower : Text) (v4 : Text)
      → includes_text blocked_ips addr ≡ false
      → is_ip4 addr ≡ false
      → is_ip6 addr ≡ true
      → to_lower_case addr ≡ lower
      → unwrap_mapped_v4 lower ≡ some v4
      → assert_safe_ip addr ≡ assert_safe_v4 v4
  unfolding assert_safe_ip
  assert_safe_ip-v6 addr lower v4 n b c l u = rw (n, b, c, l, u) refl

  -- An IPv4 address is judged the same written as an IPv4-mapped IPv6 address, `::ffff:` before it, where node takes
  -- it for an IPv4 address and the mapped text for an IPv6 one, and it has no letters.
  pub assert_safe_ip-mapped :
      (v4 : Text)
      → is_ip4 v4 ≡ true
      → is_ip4 (mapped_prefix ++ v4) ≡ false
      → is_ip6 (mapped_prefix ++ v4) ≡ true
      → to_lower_case v4 ≡ v4
      → assert_safe_ip (mapped_prefix ++ v4) ≡ assert_safe_ip v4
  assert_safe_ip-mapped v4 a b c d =
      assert_safe_ip-v6 (mapped_prefix ++ v4) (mapped_prefix ++ v4) v4 (blocked_mapped v4) b c
        (lower_mapped v4 ∙ ap (λ s. mapped_prefix ++ s) d) (unwrap_mapped v4 a)
      ∙ sym (assert_safe_ip-v4 v4 a)
