-- ===== src/Tests/Opening.antt =====
-- The Terminal button with the busy fleet.
use popfleet.Base.{String, [], ◌∷◌, ◌≡◌, refl, arith}
use popfleet.Dict.{lookup}
use popfleet.Fleet.Runtime.{rand_hex}
use popfleet.Fleet.Api.{switching}
use popfleet.Fleet.Events.{Draws, fetch}
use popfleet.Fleet.Keys.Minting.{session_url}
use popfleet.Worker
use popfleet.Worker.{forwards, serves}
use popfleet.Panel.Access.{request_of}
use popfleet.Panel.Actions.{open_terminal}
use popfleet.Terminal.Address.{socket_path}
use popfleet.EndToEnd.Opening.{
  reply_of, term_path, post, connect, visit, handshake, term_call, terminal_opens,
}
use popfleet.Tests.World.{platform, busy, codes}
use popfleet.Tests.Gate.{env, m1-NoSlash, m1-full}
use popfleet.Tests.Panel.{surface, panel}

abbrev pub draws : Draws
draws = record { short = 3 ∷ []; long = 4 ∷ [] }

-- As the browser splits "/term/03?k=04".
abbrev split_url : String → String × String
split_url url = ("/term/03", "04")

terminal_opens_example :
    let url = session_url (rand_hex draws.short) (rand_hex draws.long) in
    let made = fetch platform 7000 (post (term_path "m1")) draws busy in
    let after = open_terminal surface "m1" (reply_of made.1) panel in
    let (pathname, k) = split_url url in
    (after.calls ≡ term_call "m1" panel ∷ [])
    × (Worker.fetch codes (request_of (term_call "m1" panel)) env ≡ forwards)
    × (after.windows ≡ url ∷ [])
    × (Worker.fetch codes (visit pathname) env ≡ serves "/term")
    × (Worker.fetch codes (handshake (socket_path pathname)) env ≡ forwards)
    × ((fetch platform 9000 (connect (socket_path pathname) k) draws made.0).1
        ≡ switching made.0.next_id)
unfolding lookup rand_hex
terminal_opens_example =
    terminal_opens surface codes env platform split_url 7000 9000 "m1" draws draws busy panel refl
      (λ e. cc e) refl m1-NoSlash m1-full refl (omega arith) refl
