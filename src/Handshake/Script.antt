-- ===== src/Handshake/Script.antt =====
-- The opening of a session, as RFC 6143 has the client send it.
use libopenvnc.Base.{
  ℕ, ◌^◌, ◌≤◌, ◌<◌, ◌≡◌, ◌⊎◌, inl, inr, refl, not, Option, none, some, List, [], ◌∷◌, ◌++◌, length,
  take, ltb, ltb_ℤ, ◌==◌, ◌==ℤ◌, if◌then◌else◌, ℤ, pos, Bool-cases,
}
use libopenvnc.Pixel.{PixelFormat}
use libopenvnc.State.{Client, version_33, version_37, version_38, security_none}
use libopenvnc.Run.{St}
use libopenvnc.Session.Sends.{Wrote}
use libopenvnc.Messages.Server.{set_pixel_format, set_encodings}
use libopenvnc.Messages.Sent.{bytes_of}
use libopenvnc.Handshake.Choices.{Answers}
use libopenvnc.Handshake.Version.{choose_version, version_str}

-- What the opening of a session depends on: what the application has asked for, and what was agreed.
pub record Settings : Type 0 where
  pub shared : ℕ
  pub pixel_format : Option PixelFormat
  pub encodings : Option (List ℤ)
  pub num_encodings : ℕ
  pub version : ℕ
  pub security_type : ℕ

abbrev pub settings_of : Client → Settings
settings_of c = record {
  shared = c.shared;
  pixel_format = c.pixel_format;
  encodings = c.encodings;
  num_encodings = c.num_encodings;
  version = c.conn_info.rfb_version;
  security_type = c.conn_info.security_type;
}

-- The messages for the pixel format and the encodings, where the application has asked for some.
abbrev pub format_bytes : Option PixelFormat → List ℕ
format_bytes none = []
format_bytes (some fmt) = bytes_of (set_pixel_format fmt)

abbrev pub encodings_bytes : Option (List ℤ) → ℕ → List ℕ
encodings_bytes none n = []
encodings_bytes (some es) n = if ltb 0 n then bytes_of (set_encodings (take n es)) else []

-- The type of security, which the client does not choose in version 3.3.
abbrev pub choice_bytes : ℕ → ℕ → List ℕ
choice_bytes version type = if version == version_33 then [] else type ∷ []

-- The texts of ProtocolVersion for the versions 3.3, 3.7 and 3.8.
abbrev pub rfc_text : ℕ → List ℕ
rfc_text version =
    if version == version_33
    then b'R' ∷ b'F' ∷ b'B' ∷ b' ' ∷ b'0' ∷ b'0' ∷ b'3' ∷ b'.' ∷ b'0' ∷ b'0' ∷ b'3' ∷ b'\n' ∷ []
    else if version == version_37
    then b'R' ∷ b'F' ∷ b'B' ∷ b' ' ∷ b'0' ∷ b'0' ∷ b'3' ∷ b'.' ∷ b'0' ∷ b'0' ∷ b'7' ∷ b'\n' ∷ []
    else b'R' ∷ b'F' ∷ b'B' ∷ b' ' ∷ b'0' ∷ b'0' ∷ b'3' ∷ b'.' ∷ b'0' ∷ b'0' ∷ b'8' ∷ b'\n' ∷ []

-- ProtocolVersion, the type of security, ClientInit, SetPixelFormat, SetEncodings
abbrev pub opening : Settings → List ℕ
opening x =
    rfc_text x.version
    ++ (choice_bytes x.version x.security_type
        ++ ((x.shared ∷ [])
            ++ (format_bytes x.pixel_format ++ encodings_bytes x.encodings x.num_encodings)))

-- One of the versions of the protocol that the library knows.
abbrev pub IsVersion : ℕ → Type 0
IsVersion v = (v ≡ version_33) ⊎ (v ≡ version_37) ⊎ (v ≡ version_38)

pub choose_version-IsVersion : (minor : ℤ) → IsVersion (choose_version minor)
unfolding choose_version
choose_version-IsVersion minor = elim (Bool-cases (not (ltb_ℤ minor (pos 8)))) [
  | inl late ↦ rw late (inr (inr refl))
  | inr early ↦ elim (Bool-cases (minor ==ℤ pos 7)) [
    | inl seven ↦ rw (early, seven) (inr (inl refl))
    | inr old ↦ rw (early, old) (inl refl)
  ]
]

-- The code sends that text.
pub version_str-rfc_text : (v : ℕ) → IsVersion v → version_str v ≡ rfc_text v
unfolding version_str
version_str-rfc_text v (inl e) = rw e refl
version_str-rfc_text v (inr (inl e)) = rw e refl
version_str-rfc_text v (inr (inr e)) = rw e refl

-- The configured list is long enough, and short enough for the message that carries it.
pub record HasShortList (x : Settings) : Type 0 where
  pub enough : (es : List ℤ) → x.encodings ≡ some es → x.num_encodings ≤ length es
  pub bound : x.num_encodings < 2 ^ 16

abbrev pub Agrees : Settings → Client → Type 0
Agrees x c = settings_of c ≡ x

module _ {E : Type 0} (output : E → List ℕ) where
  -- The agreed settings are `x`, and `o` was sent.
  abbrev pub Said : Settings → List ℕ → St E → Type 0
  Said x o = Wrote output (Agrees x) o

-- The settings once the type of security is agreed.
abbrev pub secured : Settings → Settings
secured x = record x { security_type = security_none }

-- Where the bytes `came` were to come: the opening of the version that answers the first 12 of them was
-- sent after `o`, and its settings are agreed.
module _ {E : Type 0} (output : E → List ℕ) where
  abbrev pub Opened : Settings → List ℕ → List ℕ → St E → Type 0
  Opened x came o s =
      (v : ℕ) × IsVersion v
      × Answers (take 12 came) v
      × Said output (secured (record x { version = v }))
          (o ++ opening (secured (record x { version = v }))) s
