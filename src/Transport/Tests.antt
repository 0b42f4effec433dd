-- ===== src/Transport/Tests.antt =====
-- A client whose upstream answers every call alike.
use mcpshield.Prelude.{
  ℕ, suc, String, false, Option, none, some, [], ◌≡◌, ◌↔◌, refl, ok, err, pos, Result,
}
use mcpshield.Mcp.{Json, str, num}
use mcpshield.Transport.{
  HttpClient, RpcEnvelope, Decoding, validate_client, new_http_client, bad_id,
}
use mcpshield.Transport.Calls.{
  HttpReply, add_id, envelope, call, handle_response, check_decoding, check_decoded, check_reply,
  reply_result,
}
use mcpshield.Transport.Reply.{IsAccepted, call-IsAccepted_iff}

abbrev pub files_client : HttpClient
files_client = record {
  upstream_id = "files";
  base_url = "http://localhost";
  headers = [];
  request_timeout = pos 5;
  next_id = 0;
  max_response_bytes = 100;
  metrics = some (record { vectors = []; updates = []; include_client_id = false });
}

files_made :
    new_http_client "files" "http://localhost" [] (pos 5) (pos 100)
    ≡ ok (record files_client { metrics = none })
unfolding new_http_client validate_client
files_made = refl

-- the state counts the requests
abbrev pub toy_post : HttpClient → RpcEnvelope → ℕ → Result String HttpReply × ℕ
toy_post c env n = (ok (record { status = 200; body = "answer" }), suc n)

abbrev pub toy_decode : ℕ → String → Decoding
toy_decode max s = record {
  read = 10;
  reply =
      some
        (record { jsonrpc = "2.0"; id = some (num "1"); result = some (str "done"); error = none });
  trailing = false;
}

abbrev pub always_one : Json → Option ℕ
always_one j = some 1

abbrev whole : Json → Option Json
whole j = some j

first_accepted :
    (call always_one toy_decode toy_post whole "m" none files_client 0).0 ≡ ok (str "done")
unfolding call add_id handle_response check_decoding check_decoded check_reply reply_result
first_accepted = refl

second_mismatch :
    (call always_one toy_decode toy_post whole "m" none (record files_client { next_id = 1 }) 0).0
    ≡ err bad_id
unfolding call add_id handle_response check_decoding check_decoded check_reply reply_result
second_mismatch = refl

call-IsAccepted_iff_example :
    ((call always_one toy_decode toy_post whole "m" none files_client 0).0 ≡ ok (str "done"))
    ↔ IsAccepted always_one toy_decode whole 100
        (add_id files_client).next_id
        (toy_post (add_id files_client) (envelope "m" none (add_id files_client)) 0).0
        (str "done")
call-IsAccepted_iff_example =
    call-IsAccepted_iff always_one toy_decode whole toy_post "m" none files_client 0 (str "done")
