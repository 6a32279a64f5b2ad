-- ===== src/Handshake/Choices.antt =====
-- What the handshake chooses: the protocol version, and the security type.
use libopenvnc.Base.{
  ℕ, ◌+◌, ◌*◌, ◌≤◌, ◌<◌, ◌≡◌, ◌≢◌, ◌⊎◌, refl, ap, true, List, [], ◌∷◌, ◌++◌, arith, inl, inr, All,
  ◌==◌, if◌then◌else◌, Bool-cases, ==_iff, pos, sub_ℕ, ◌*ℤ◌, ◌+ℤ◌,
}
use libopenvnc.State.{version_33, version_37, version_38, security_none, security_invalid}
use libopenvnc.Handshake.Version.{is_banner, three_digits, choose_version}
use libopenvnc.Handshake.Security.{select_security}

-- The loop of negotiate_security finds OVNC_SECURITY_NONE exactly where the server's list, of any
-- length, has it, and otherwise nothing.
pub select_security-cases :
    (types : List ℕ)
    → ((select_security types ≡ security_none)
        × ((before after : List ℕ) × (types ≡ before ++ (security_none ∷ after))))
      ⊎ ((select_security types ≡ security_invalid) × All (λ t. t ≢ security_none) types)
unfolding select_security
select_security-cases [] = inr (refl, tt)
select_security-cases (t ∷ ts) = elim (Bool-cases (t == security_none)) [
  | inl same ↦ inl (rw same refl, ([], ts, ap (λ x. x ∷ ts) ((==_iff t security_none).0 same)))
  | inr other ↦ elim (select_security-cases ts) [
    | inl found ↦ inl (rw other found.0, (t ∷ found.1.0, found.1.1, ap (λ l. t ∷ l) found.1.2))
    | inr none_there ↦
        inr (rw other none_there.0, ((λ e. cc ((==_iff t security_none).1 e, other)), none_there.1))
  ]
]

-- The text "RFB 003.abc\n", for three digits.
abbrev pub banner_of : ℕ → ℕ → ℕ → List ℕ
banner_of a b c =
    b'R'
    ∷ b'F'
    ∷ b'B'
    ∷ b' '
    ∷ b'0'
    ∷ b'0'
    ∷ b'3'
    ∷ b'.'
    ∷ (b'0' + a)
    ∷ (b'0' + b)
    ∷ (b'0' + c)
    ∷ 10
    ∷ []

sub-digit : (a : ℕ) → sub_ℕ (48 + a) 48 ≡ pos a
sub-digit a = ground arith

pos-mul : (a b : ℕ) → pos a *ℤ pos b ≡ pos (a * b)
unfolding ◌*ℤ◌
pos-mul a b = ground arith

pos-add : (a b : ℕ) → pos a +ℤ pos b ≡ pos (a + b)
unfolding ◌+ℤ◌
pos-add a b = ground arith

three_digits-banner_of : (a b c : ℕ) → three_digits (banner_of a b c) 8 ≡ pos (a * 100 + b * 10 + c)
unfolding three_digits
three_digits-banner_of a b c = rw (
  sub-digit a,
  sub-digit b,
  sub-digit c,
  pos-mul a 100,
  pos-mul b 10,
  pos-add (a * 100) (b * 10),
  pos-add (a * 100 + b * 10) c,
)

-- The version that docs/rfb-version-differences.md has for a minor number: 3.7 and 3.8 are known, and
-- any other number counts as 3.3.
abbrev pub documented_version : ℕ → ℕ
documented_version n = if n == 7 then version_37 else if n == 8 then version_38 else version_33

-- For a server that announces "RFB 003.abc", with three decimal digits, the banner is accepted. Where
-- the number abc is 8 or less, the version is the one that docs/rfb-version-differences.md has for it;
-- where abc is more than 8, the version is 3.8, and the document has 3.3.
pub choose_version-banner_of :
    (a b c : ℕ)
    → a < 10
    → b < 10
    → c < 10
    → let buf = banner_of a b c in
      let n = a * 100 + b * 10 + c in
      let version = choose_version (three_digits buf 8) in
      (is_banner buf ≡ true)
      × (three_digits buf 4 ≡ pos 3)
      × (n ≤ 8 → version ≡ documented_version n)
      × (8 < n → (version ≡ version_38) × (documented_version n ≡ version_33))
unfolding is_banner three_digits choose_version
choose_version-banner_of a b c ha hb hc = (
  refl,
  refl,
  rw (three_digits-banner_of a b c) (λ le. ground arith),
  rw (three_digits-banner_of a b c) (λ over. (ground arith, ground arith)),
)

-- The version that answers the text of a server: where that is "RFB 003.abc" with three decimal digits,
-- 3.8 where the number abc is 8 or more, 3.7 where it is 7, and 3.3 below that.
abbrev pub Answers : List ℕ → ℕ → Type 0
Answers text version =
    (a b c : ℕ)
    → a < 10
    → b < 10
    → c < 10
    → text ≡ banner_of a b c
    → let n = a * 100 + b * 10 + c in
      ((8 ≤ n) × (version ≡ version_38))
      ⊎ ((n ≡ 7) × (version ≡ version_37))
      ⊎ ((n < 7) × (version ≡ version_33))

pub choose_version-Answers : (text : List ℕ) → Answers text (choose_version (three_digits text 8))
unfolding choose_version
choose_version-Answers text a b c ha hb hc same =
    rw (same, three_digits-banner_of a b c) (ground arith)
