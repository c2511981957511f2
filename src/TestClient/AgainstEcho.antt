-- ===== src/TestClient/AgainstEcho.antt =====
-- examples/test-client against examples/echo-server: the whole run of the client.
use tunely.Prelude.{◌≡◌, refl, some, List}
use tunely.Prelude.Bytes.{Text}
use tunely.External.{Http}
use tunely.TestClient.{HttpLib, WsLib, new, pass, base_of, exit_code, main}
use tunely.TestClient.Carried.{Carries, Linked}
use tunely.TestClient.Requests.{test_http-passes}
use tunely.TestClient.Socket.{test_ws-passes}

-- If the client's requests and its websocket reach the example server, whatever headers are added on the
-- way, all its 16 tests pass and it exits with 0.
pub all_tests_pass :
    (http : HttpLib) (headers : Http) (ws : WsLib) (args : List Text)
    → Carries http headers (base_of args)
    → Linked ws (base_of args)
    → main http ws args ≡ some (record { passed = 16; total = 16 }, 0)
unfolding main exit_code pass
all_tests_pass http headers ws args carries linked =
    rw
      (
        test_http-passes http headers (base_of args) carries new,
        test_ws-passes ws (base_of args) linked _,
      )
      refl
