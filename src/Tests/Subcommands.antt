-- ===== src/Tests/Subcommands.antt =====
-- The command line against the service, at concrete inputs.
use btc_idx_service.Harvester
use btc_idx_service.Tools
use btc_idx_service.Prelude.{some, [], true, ◌∷◌, ◌≡◌, ◌==◌, refl}
use btc_idx_service.Prelude.Run.{ok, err}
use btc_idx_service.Commands.{Channel}

-- Numbers are printed as themselves, and only the status 200 is a success.
abbrev http : Tools.Http
http = record {
  to_string = λ n. n;
  parse = some;
  is_success = λ n. n == 200;
  connected = true;
  unmatched = 404;
}

http-IsHttp : Tools.IsHttp http
http-IsHttp = record {
  parse-to_string = λ n. refl;
  ok_status = refl;
  bad_request = refl;
  server_error = refl;
}

abbrev listening : Channel
listening = record { queue = Harvester.pause ∷ []; receiving = true }

run-eq-delivered_example :
    Tools.run http (Tools.scan_block 5 9) listening
    ≡ Tools.delivered true (Tools.scan_block 5 9) listening
run-eq-delivered_example = Tools.run-eq-delivered http (Tools.scan_block 5 9) listening http-IsHttp

abbrev scan_sent : Channel
scan_sent = record listening { queue = Harvester.pause ∷ Harvester.scan_blocks 5 9 ∷ [] }

scan_is_sent : Tools.delivered true (Tools.scan_block 5 9) listening ≡ (ok tt, scan_sent)
scan_is_sent = refl

backward_scan_fails :
    Tools.delivered true (Tools.scan_block 9 5) listening ≡ (err Tools.failed, listening)
backward_scan_fails = refl
