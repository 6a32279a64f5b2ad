-- ===== src/Sample/ConnectTests.antt =====
-- The theorems on ovnc_client_create, _connect and _destroy, and on the choices of the
-- handshake, at a concrete session.
use mathlib.Core.Option.{some-injective}
use libopenvnc.Base.{
  suc, ◌≤◌, ◌<◌, ◌≢◌, ◌⊎◌, All, true, ap, ◌-◌, length, ℕ, ◌≡◌, refl, none, List, [], ◌∷◌, ◌++◌,
  arith, pos, negsuc, some,
}
use libopenvnc.Pixel.{init_default, to_wire}
use libopenvnc.State.{version_33, version_38, security_none, security_invalid, created, connected}
use libopenvnc.Run.{St}
use libopenvnc.Run.Safe.{Ends}
use libopenvnc.Session.{IsReady}
use libopenvnc.Handshake.Opening.{HasEncodings}
use libopenvnc.Handshake.Choices.{
  documented_version, banner_of, select_security-cases, choose_version-banner_of,
}
use libopenvnc.Handshake.Security.{select_security}
use libopenvnc.Handshake.Version.{banner, choose_version, three_digits, is_banner}
use libopenvnc.Client.Lifecycle.{connect, destroy}
use libopenvnc.Client.Lifecycle.Connecting.{IsFresh, connect-Ends}
use libopenvnc.Client.Lifecycle.Destroying.{blocks, destroy-Frees}
use libopenvnc.Client.Create.{Config, create}
use libopenvnc.Client.Create.Balance.{Makes, create-Makes}
use libopenvnc.Example.{main, with_example}
use libopenvnc.Example.Safety.{Returns, simple_client-Returns}
use libopenvnc.Sample.{sample-no_empty, World, incoming, sample, sample-IsTame}
use libopenvnc.Sample.Tests.{start}
use libopenvnc.Client.Heap.{Owns}
use libopenvnc.Client.Heap.Connecting.{connect-Balanced}
use libopenvnc.Sample.HeapTests.{sample-IsFrugal}

-- A server of version 3.8 without a password, with a screen of 2 by 1 pixels and the name "A".
abbrev pub server : List ℕ
server =
    banner b'8'
    ++ (1 ∷ 1 ∷ 0 ∷ 0 ∷ 0 ∷ 0 ∷ 0 ∷ 2 ∷ 0 ∷ 1 ∷ [])
    ++ to_wire init_default
    ++ (0 ∷ 0 ∷ 0 ∷ 1 ∷ 65 ∷ [])

-- A client that prefers raw rectangles, and takes changes of the desktop size.
abbrev pub fresh : St World
fresh = record {
  client = record start.client {
    state = created;
    transport = none;
    encodings = some (pos 0 ∷ negsuc 222 ∷ []);
    num_encodings = 2;
    framebuffer = record start.client.framebuffer { pixels = none; data_size = 0 };
  };
  world = record { incoming = server; outgoing = []; events = [] };
  live = 3;
  init_count = 0;
}

pub fresh-HasEncodings : HasEncodings fresh.client
fresh-HasEncodings = record {
  enough = λ es e.
      let same : (pos 0 ∷ negsuc 222 ∷ []) ≡ es = some-injective _ _ e in
      omega (arith, ap length same);
  bound = omega arith;
}

connect-Ends_example :
    Ends (λ _ s. (k : ℕ) × IsReady incoming connected k s) (λ s. IsFresh s.client) (connect fresh)
connect-Ends_example =
    connect-Ends sample-IsTame (λ s h. record { enough = h.enough; bound = h.bound }) fresh
      (record { state = refl; transport = refl }) fresh-HasEncodings

-- A configuration with a list of encodings and no format.
abbrev config : Config
config = record {
  host = some (b'h' ∷ []);
  port = 0;
  shared = 1;
  pixel_format = none;
  encodings = some (pos 0 ∷ negsuc 222 ∷ []);
  num_encodings = 2;
  connect_timeout_ms = 0;
  user_data = 0;
}

create-Makes_example : Makes 7 (create (some config) none (fresh.world, 7))
create-Makes_example =
    create-Makes config none fresh.world 7
      (record { enough = fresh-HasEncodings.enough; bound = fresh-HasEncodings.bound })

destroy-Frees_example :
    Ends (λ _ s. s.live ≡ start.live - blocks start.client) (λ _. ⊥) (destroy start)
destroy-Frees_example = destroy-Frees start

select_security-cases_example :
    ((select_security (2 ∷ 1 ∷ []) ≡ security_none)
      × ((before after : List ℕ) × (2 ∷ 1 ∷ [] ≡ before ++ (security_none ∷ after))))
    ⊎ ((select_security (2 ∷ 1 ∷ []) ≡ security_invalid)
        × All (λ t. t ≢ security_none) (2 ∷ 1 ∷ []))
select_security-cases_example = select_security-cases (2 ∷ 1 ∷ [])

choose_version-banner_of_example :
    let version = choose_version (three_digits (banner_of 0 1 4) 8) in
    (is_banner (banner_of 0 1 4) ≡ true)
    × (three_digits (banner_of 0 1 4) 4 ≡ pos 3)
    × (14 ≤ 8 → version ≡ documented_version 14)
    × (8 < 14 → (version ≡ version_38) × (documented_version 14 ≡ version_33))
choose_version-banner_of_example =
    choose_version-banner_of 0 1 4 (omega arith) (omega arith) (omega arith)

-- The example, called with the name of a host and a port.
simple_client-Returns_example : Returns 0 (
    main ⦃sys = with_example sample⦄
      (λ text. pos 5901)
      (λ v. suc (length (incoming v)))
      ((b'h' ∷ []) ∷ [] ∷ [])
      (fresh.world, 0))
simple_client-Returns_example =
    simple_client-Returns sample sample-IsTame sample-no_empty
      (λ s h. record { enough = h.enough; bound = h.bound }) sample-IsFrugal.alloc
      (λ text. pos 5901) ((b'h' ∷ []) ∷ [] ∷ []) fresh.world 0

-- The client of `fresh` has three blocks: itself, its host and the list of encodings.
connect-Balanced_example :
    Ends
      (λ _ s. ((k : ℕ) × IsReady incoming connected k s) × Owns 0 s)
      (λ s. IsFresh s.client × Owns 0 s)
      (connect fresh)
connect-Balanced_example =
    connect-Balanced sample-IsTame (λ s h. record { enough = h.enough; bound = h.bound })
      sample-IsFrugal 0 fresh (record { state = refl; transport = refl }, fresh-HasEncodings) refl
      refl
