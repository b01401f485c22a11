-- ===== src/Gateway/Proxy/Laws.antt =====
-- What a service behind the gateway may believe of the headers it gets.
use video_site.Common.{
  String, ◌≡◌, refl, Bool, true, false, not, Option, none, some, [], ◌==◌, ◌&&◌, ◌||◌, text_eq, any,
  arith, inl, inr, Bool-cases, lower_codes, lower_code, truthy,
}
use video_site.Gateway.Headers.{Headers, is_named, set_header, get, collect}
use video_site.Gateway.Headers.Laws.{
  Every, set_header-Every, update-Every, set_default-Every, collect-Every,
}
use video_site.Gateway.Identity.{Identity, identity_headers, as_headers, strip_client_identity}
use video_site.Gateway.Proxy.{
  HttpRequest, with_identity, with_text, with_client, forwarded_for, request_id,
  build_forward_headers, hop_by_hop,
}

-- The identity headers that the gateway itself sends.
abbrev pub own_headers : Option Identity → Option String → Headers
own_headers none visitor_id = with_text [] "X-Visitor-Id" visitor_id
own_headers (some identity) visitor_id = with_text (as_headers identity) "X-Visitor-Id" visitor_id

-- A header that is no identity header, or one of those.
abbrev pub is_honest : Headers → String × String → Bool
is_honest own (n, v) = not (is_named identity_headers n) || any (λ h. h.0 == n && h.1 == v) own

-- A header that the gateway adds itself is honest.
as_headers-Every :
    (identity : Identity) (visitor_id : Option String)
    → Every (is_honest (own_headers (some identity) visitor_id)) (as_headers identity)
unfolding as_headers set_header
as_headers-Every identity none = grind (arith, text_eq.beq_iff)
as_headers-Every identity (some visitor_id) = grind (arith, text_eq.beq_iff)

visitor_honest :
    (identity : Option Identity) (visitor_id : String)
    → truthy visitor_id ≡ true
    → is_honest (own_headers identity (some visitor_id)) ("X-Visitor-Id", visitor_id) ≡ true
unfolding as_headers set_header
visitor_honest none visitor_id h = grind (arith, text_eq.beq_iff)
visitor_honest (some identity) visitor_id h = grind (arith, text_eq.beq_iff)

module _ (identity : Option Identity) (visitor_id : Option String) where
  abbrev own : Headers
  own = own_headers identity visitor_id

  stripped-Every : (headers : Headers) → Every (is_honest own) (strip_client_identity headers)
  unfolding strip_client_identity
  stripped-Every headers =
      collect-Every (is_honest own) (λ n. not (is_named identity_headers n)) [] headers
        (λ n v h. ground arith) tt

with_identity-Every :
    (identity : Option Identity) (visitor_id : Option String) (headers : Headers)
    → Every (is_honest (own_headers identity visitor_id)) headers
    → Every (is_honest (own_headers identity visitor_id)) (with_identity headers identity)
with_identity-Every none visitor_id headers h = h
with_identity-Every (some identity) visitor_id headers h =
    update-Every (is_honest (own_headers (some identity) visitor_id)) headers (as_headers identity)
      h (as_headers-Every identity visitor_id)

with_visitor-Every :
    (identity : Option Identity) (visitor_id : Option String) (headers : Headers)
    → Every (is_honest (own_headers identity visitor_id)) headers
    → Every
        (is_honest (own_headers identity visitor_id))
        (with_text headers "X-Visitor-Id" visitor_id)
with_visitor-Every identity none headers h = h
with_visitor-Every identity (some visitor_id) headers h = elim (Bool-cases (truthy visitor_id)) [
  | inl shown ↦ ground (
    arith,
    h,
    set_header-Every (is_honest (own_headers identity (some visitor_id))) headers "X-Visitor-Id"
        visitor_id h (visitor_honest identity visitor_id shown),
  )
  | inr blank ↦ ground (arith, h)
]

-- A header of another name.
other_honest :
    (own : Headers) (n v : String)
    → is_named identity_headers n ≡ false
    → is_honest own (n, v) ≡ true
other_honest own n v h = ground arith

forwarded_name : is_named identity_headers "X-Forwarded-For" ≡ false
unfolding is_named lower_codes lower_code
forwarded_name = refl

proto_name : is_named identity_headers "X-Forwarded-Proto" ≡ false
unfolding is_named lower_codes lower_code
proto_name = refl

request_name : is_named identity_headers "X-Request-Id" ≡ false
unfolding is_named lower_codes lower_code
request_name = refl

with_client-Every :
    (own headers : Headers) (before ip : Option String)
    → Every (is_honest own) headers
    → Every (is_honest own) (with_client headers before ip)
with_client-Every own headers before none h = h
with_client-Every own headers before (some ip) h = ground (
  arith,
  h,
  set_header-Every (is_honest own) headers "X-Forwarded-For" (forwarded_for before ip) h
      (other_honest own "X-Forwarded-For" (forwarded_for before ip) forwarded_name),
)

-- No client can speak for the gateway: whatever headers a request carries, every identity header
-- that a service gets, in whatever case its name is written, is one of those that the gateway
-- itself made from the identity it resolved and from the visitor cookie.
pub build_forward_headers-Every :
    (fresh : String) (request : HttpRequest) (identity : Option Identity)
    (ip visitor_id : Option String)
    → Every
        (is_honest (own_headers identity visitor_id))
        (build_forward_headers fresh request identity ip visitor_id)
unfolding build_forward_headers
build_forward_headers-Every fresh request identity ip visitor_id =
    let own : Headers = own_headers identity visitor_id in
    let p : String × String → Bool = is_honest own in
    let first : Headers = collect (λ n. not (is_named hop_by_hop n)) [] request.headers in
    let before : Option String = get request.headers "x-forwarded-for" in
    let visited : Headers =
      with_text (with_identity (strip_client_identity first) identity) "X-Visitor-Id" visitor_id in
    let addressed : Headers = with_client visited before ip in
    let value : String = request_id (get request.headers "x-request-id") fresh in
    set_default-Every p (set_header addressed "X-Forwarded-Proto" request.scheme) "X-Request-Id"
      value
      (set_header-Every p addressed "X-Forwarded-Proto" request.scheme
        (with_client-Every own visited before ip (
          with_visitor-Every identity visitor_id
            (with_identity (strip_client_identity first) identity)
            (with_identity-Every identity visitor_id (strip_client_identity first)
              (stripped-Every identity visitor_id first))))
        (other_honest own "X-Forwarded-Proto" request.scheme proto_name))
      (other_honest own "X-Request-Id" value request_name)
