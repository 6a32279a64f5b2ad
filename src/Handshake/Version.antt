-- ===== src/Handshake/Version.antt =====
-- negotiate_version of src/protocol/ovnc_handshake.c.
use libopenvnc.Base.{
  ℕ, ◌+◌, Bool, true, false, ◌&&◌, not, List, [], ◌∷◌, ◌==◌, if◌then◌else◌, take, ℤ, pos, ◌==ℤ◌,
  ◌+ℤ◌, ◌*ℤ◌, sub_ℕ, ltb_ℤ,
}
use libopenvnc.Error.{version_mismatch, protocol}
use libopenvnc.Wire.{byte_at}
use libopenvnc.State.{version_33, version_37, version_38}
use libopenvnc.Run.{Action, System, raise, ◌>>=◌, ◌>>◌, modify_client}
use libopenvnc.Transport.{transport_send, transport_recv}
use libopenvnc.Handshake.Info.{set_conn_info}

-- `memcmp(…) == 0` of two blocks of one size
abbrev pub same_bytes : List ℕ → List ℕ → Bool
same_bytes [] [] = true
same_bytes (a ∷ as') (b ∷ bs) = a == b && same_bytes as' bs
same_bytes [] (_ ∷ _) = false
same_bytes (_ ∷ _) [] = false

-- "RFB " and "RFB 003.008\n", "RFB 003.007\n", "RFB 003.003\n"
abbrev pub rfb_tag : List ℕ
rfb_tag = b'R' ∷ b'F' ∷ b'B' ∷ b' ' ∷ []

abbrev pub banner : ℕ → List ℕ
banner digit = b'R' ∷ b'F' ∷ b'B' ∷ b' ' ∷ b'0' ∷ b'0' ∷ b'3' ∷ b'.' ∷ b'0' ∷ b'0' ∷ digit ∷ 10 ∷ []

-- The shape that negotiate_version tests for.
unfoldable pub is_banner : List ℕ → Bool
is_banner buf = same_bytes (take 4 buf) rfb_tag && (byte_at buf 7 == b'.' && byte_at buf 11 == 10)

-- `(b[i] - '0') * 100 + (b[i + 1] - '0') * 10 + (b[i + 2] - '0')`, in `int`
unfoldable pub three_digits : List ℕ → ℕ → ℤ
unfolding ◌+ℤ◌ ◌*ℤ◌
three_digits buf i =
    sub_ℕ (byte_at buf i) b'0' *ℤ pos 100
    +ℤ sub_ℕ (byte_at buf (i + 1)) b'0' *ℤ pos 10
    +ℤ sub_ℕ (byte_at buf (i + 2)) b'0'

-- The version for a minor number.
unfoldable pub choose_version : ℤ → ℕ
choose_version minor =
    if not (ltb_ℤ minor (pos 8))
    then version_38
    else if minor ==ℤ pos 7
    then version_37
    else version_33

-- The text that announces a version.
unfoldable pub version_str : ℕ → List ℕ
version_str version =
    if version == version_38
    then banner b'8'
    else if version == version_37
    then banner b'7'
    else banner b'3'

module _ {E : Type 0} ⦃sys : System E⦄ where
  -- negotiate_version
  unfoldable pub negotiate_version : Action E Unit
  unfolding is_banner three_digits choose_version version_str
  negotiate_version = do
    buf ← transport_recv 12
    if not (is_banner buf)
        then raise protocol
        else if not (three_digits buf 4 ==ℤ pos 3)
        then raise version_mismatch
        else do
          let version = choose_version (three_digits buf 8)
          modify_client (set_conn_info (λ i. record i { rfb_version = version }))
          transport_send (version_str version)
