-- ===== src/Transport/Ids.antt =====
-- The ids that one client of internal/transport/mcp_http_client.go sends, call after call.
use Prim.Native.Nat.{◌%◌}
use mcpshield.Prelude.{
  ℕ, suc, ◌+◌, ◌<◌, String, Option, List, [], ◌∷◌, ◌++◌, length, length-append, Result, ◌≡◌, ◌≢◌,
  sym, ap, ◌∙◌, arith,
}
use mcpshield.Mcp.{Json}
use mcpshield.Transport.{HttpClient, RpcEnvelope, Decoding}
use mcpshield.Transport.Calls.{HttpReply, add_id, call}
use mcpshield.Transport.Counted.{call-counted}

wrap_suc :
    (n k : ℕ)
    → ((n + 1) % 18_446_744_073_709_551_616 + k) % 18_446_744_073_709_551_616
      ≡ (n + suc k) % 18_446_744_073_709_551_616
wrap_suc n k = omega arith

wrap-differ :
    (n i d : ℕ)
    → d + 1 < 18_446_744_073_709_551_616
    → (n + i) % 18_446_744_073_709_551_616 ≢ (n + (i + (d + 1))) % 18_446_744_073_709_551_616
wrap-differ n i d small same = absurd (omega (arith, small, same))

longer :
    (before : List (String × Option Json)) (first : String × Option Json)
    (between : List (String × Option Json))
    → suc (length (before ++ first ∷ between)) ≡ suc (length before) + (length between + 1)
longer before first between = omega (arith, length-append before (first ∷ between))

module _ {A N : Type 0} (int64_of : Json → Option ℕ) (decode : ℕ → String → Decoding)
    (post : HttpClient → RpcEnvelope → N → Result String HttpReply × N)
    (out : Json → Option A) where
  -- the client after calls of the methods with their parameters, one after the other
  unfoldable pub client_after : List (String × Option Json) → HttpClient → N → HttpClient
  client_after [] c net = c
  client_after ((method, params) ∷ reqs) c net =
      let (_, c', net') = call int64_of decode post out method params c net in
      client_after reqs c' net'

  -- The id that the next call sends, after these.
  abbrev pub id_after : List (String × Option Json) → HttpClient → N → ℕ
  id_after reqs c net = (add_id (client_after reqs c net)).next_id

  client_after-next_id :
      (reqs : List (String × Option Json)) (c : HttpClient) (net : N)
      → (client_after reqs c net).next_id % 18_446_744_073_709_551_616
        ≡ (c.next_id + length reqs) % 18_446_744_073_709_551_616
  unfolding client_after
  client_after-next_id [] c net = omega arith
  client_after-next_id ((method, params) ∷ reqs) c net =
      let (r, c', net') = call int64_of decode post out method params c net in
      client_after-next_id reqs c' net'
      ∙ ap (λ n. (n + length reqs) % 18_446_744_073_709_551_616)
          (ap (λ (x : HttpClient). x.next_id)
            (call-counted int64_of out decode post method params c net))
      ∙ wrap_suc c.next_id (length reqs)

  id_after-eq :
      (reqs : List (String × Option Json)) (c : HttpClient) (net : N)
      → id_after reqs c net ≡ (c.next_id + suc (length reqs)) % 18_446_744_073_709_551_616
  unfolding add_id
  id_after-eq reqs c net = omega (arith, client_after-next_id reqs c net)

  -- Two calls of one client send different ids, whatever the calls before and between them were and
  -- however they ended, as long as fewer than 2 ^ 64 - 1 calls lie between the two.
  id_after-differ :
      (before : List (String × Option Json)) (first : String × Option Json)
      (between : List (String × Option Json)) (c : HttpClient) (net : N)
      → length between + 1 < 18_446_744_073_709_551_616
      → id_after before c net ≢ id_after (before ++ first ∷ between) c net
  id_after-differ before first between c net small same =
      wrap-differ c.next_id (suc (length before)) (length between) small (
        sym (id_after-eq before c net)
        ∙ same
        ∙ id_after-eq (before ++ first ∷ between) c net
        ∙ ap (λ n. (c.next_id + n) % 18_446_744_073_709_551_616) (longer before first between))
