-- ===== src/Rpc/Mux/Pages.antt =====
-- The pages of accounts, pools and validators that a built chain serves.
use canopy_rpc_mock.Base.{
  ℕ, ◌+◌, ◌-◌, ◌*◌, ◌/◌, ◌≤◌, ◌<◌, ◌^◌, ◌≡◌, refl, ap, ◌∙◌, some, List, take, drop, arith, length,
  ok, ◌>>=◌, pos, String, Option,
}
use canopy_rpc_mock.Gen.Runtime.{Runtime, CeilDivExact}
use canopy_rpc_mock.Chain.Types.{Account, Pool, Validator}
use canopy_rpc_mock.Chain.Canopy.{Canopy}
use canopy_rpc_mock.Chain.MockChain.{MockChain, GenesisState, state_at}
use canopy_rpc_mock.Chain.IndexerBlob.{Marshal}
use canopy_rpc_mock.Chain.New.{ChainOption, new_mock_chain}
use canopy_rpc_mock.Chain.New.Heights.{new_mock_chain_parts}
use canopy_rpc_mock.Chain.New.Served.{heights_served}
use canopy_rpc_mock.Chain.New.States.{state_at-counts}
use canopy_rpc_mock.Rpc.Page.{Page, build_page, count_of}
use canopy_rpc_mock.Rpc.Page.Window.{paginate-window}
use canopy_rpc_mock.Rpc.Page.Totals.{total_pages-enough}
use canopy_rpc_mock.Rpc.Http.{Http, Request, Payload, HeightPageRequest, json}
use canopy_rpc_mock.Rpc.Replies.{or_latest, page_request, page_reply, state_reply}
use canopy_rpc_mock.Rpc.Routes.{handle_accounts, handle_pools, handle_validators}
use canopy_rpc_mock.Rpc.Mux.{Route, handle}

-- A page in terms of the list that it is cut from.
pub record IsPageOf {ℓ} {A : Type ℓ} (items : List A) (p q : ℕ) (page : Page A) : Type ℓ where
  pub results : page.results ≡ take q (drop ((p - 1) * q) items)
  pub count : page.count ≡ length page.results
  pub total_count : page.total_count ≡ pos (length items)
  pub total_pages : page.total_pages ≡ pos ((length items + q - 1) / q)

-- A type of page has a Len method, and it gives the number of items.
abbrev pub IsLen {ℓ} : {A : Type ℓ} → Option (List A → ℕ) → Type ℓ
IsLen {A = A} o = (len : List A → ℕ) × (o ≡ some len) × ((xs : List A) → len xs ≡ length xs)

pub record HasLengths (http : Http) : Type 0 where
  pub accounts : IsLen http.account_page_len
  pub pools : IsLen http.pool_page_len
  pub validators : IsLen http.validator_page_len

count_of-length {ℓ} :
    {A : Type ℓ} (o : Option (List A → ℕ)) (xs : List A) → IsLen o → count_of o xs ≡ length xs
unfolding count_of
count_of-length o xs (len, has, counts) = ap (λ m. count_of m xs) has ∙ counts xs

page_reply-IsPageOf {ℓ} :
    {A : Type ℓ} (rt : Runtime) (payload : Page A → Payload) (len : Option (List A → ℕ))
    (type_name : String) (items : List A) (h p q : ℕ)
    → CeilDivExact rt
    → IsLen len
    → 1 ≤ p
    → p < 2 ^ 50
    → 1 ≤ q
    → q ≤ 5000
    → length items < 2 ^ 49
    → (page : Page A) × (page_reply rt payload len type_name items
          (record { height = h; page_number = pos p; per_page = pos q })
        ≡ ok (json 200 (payload page)))
      × IsPageOf items p q page
unfolding page_reply build_page
page_reply-IsPageOf rt payload len type_name items h p q exact counts lp kp lq kq small =
    let cut = take q (drop ((p - 1) * q) items) in
    let page =
      build_page rt len cut (record { page_number = pos p; per_page = pos q }) type_name
        (pos (length items)) in
    (
      page,
      ap (λ m. m >>= (λ t. ok (json 200 (payload (build_page rt len t.0 t.1 type_name t.2)))))
          (paginate-window items p q lp lq kq kp),
      record {
        results = refl;
        count = count_of-length len cut counts;
        total_count = refl;
        total_pages = (total_pages-enough rt len items cut p q type_name exact lq kq small).0;
      },
    )

-- A height that is given is the one that is meant.
pub or_latest_same : (mc : MockChain) (h : ℕ) → 1 ≤ h → or_latest mc h ≡ h
unfolding or_latest
or_latest_same mc h low = ground arith

module _ (rt : Runtime) (cn : Canopy) (ms : Marshal) (http : Http) (fuel n chain_id : ℕ)
    (opts : List ChainOption) {mc : MockChain} (bound : n < 2 ^ 63)
    (made : new_mock_chain rt cn fuel (pos n) chain_id opts ≡ ok mc) where
  -- The page that a request gets of a list of a state.
  state_page :
      {A : Type 0} (payload : Page A → Payload) (len : Option (List A → ℕ)) (type_name : String)
      (items : GenesisState → List A) (r : Request) (h p q : ℕ) {s : GenesisState}
      → page_request http r ≡ record { height = h; page_number = pos p; per_page = pos q }
      → CeilDivExact rt
      → IsLen len
      → 1 ≤ h
      → 1 ≤ p
      → p < 2 ^ 50
      → 1 ≤ q
      → q ≤ 5000
      → state_at mc h ≡ some s
      → length (items s) < 2 ^ 49
      → (page : Page A) × (state_reply
            (λ t. page_reply rt payload len type_name (items t) (page_request http r))
            (state_at mc (or_latest mc (page_request http r).height))
          ≡ ok (json 200 (payload page)))
        × IsPageOf (items s) p q page
  state_page payload len type_name items r h p q {s} asked exact counts low lp kp lq kq at small =
      let req : HeightPageRequest = record { height = h; page_number = pos p; per_page = pos q } in
      let reply = λ (q : HeightPageRequest) (t : GenesisState).
        page_reply rt payload len type_name (items t) q in
      let (page, paged, is_page) =
        page_reply-IsPageOf rt payload len type_name (items s) h p q exact counts lp kp lq kq
          small in
      (
        page,
        ap (λ q. state_reply (reply q) (state_at mc (or_latest mc q.height))) asked
            ∙ ap (λ k. state_reply (reply req) (state_at mc k)) (or_latest_same mc h low)
            ∙ ap (λ o. state_reply (reply req) o) at
            ∙ paged,
        is_page,
      )

  -- On a chain that newMockChain returns for n < 2 ^ 63 blocks, a request for page p at height h,
  -- 1 ≤ h ≤ n, with 1 ≤ p < 2 ^ 50 and 1 ≤ q ≤ 5000 items to a page, is answered with 200 by the
  -- account, the pool and the validator routes. Each page has the accounts, the pools or the validators
  -- of that height's state from place (p - 1) * q on, q at most; it counts its own items, all items of
  -- the state, and ⌈all / q⌉ pages, if the chain has fewer than 2 ^ 49 accounts and validators each,
  -- math.Ceil of a quotient is exact for these, and the three types of page have a Len method that
  -- gives the number of items.
  pub state_pages :
      (r : Request) (h p q : ℕ)
      → page_request http r ≡ record { height = h; page_number = pos p; per_page = pos q }
      → CeilDivExact rt
      → HasLengths http
      → 1 ≤ h
      → h ≤ n
      → 1 ≤ p
      → p < 2 ^ 50
      → 1 ≤ q
      → q ≤ 5000
      → length mc.accounts < 2 ^ 49
      → length mc.validators < 2 ^ 49
      → (s : GenesisState) × (accounts : Page Account) × (pools : Page Pool) × (validators : Page
          Validator)
        × (state_at mc h ≡ some s)
        × (handle rt cn ms http mc Route.accounts r ≡ ok (json 200 (Payload.account_page accounts)))
        × IsPageOf s.accounts p q accounts
        × (handle rt cn ms http mc Route.pools r ≡ ok (json 200 (Payload.pool_page pools)))
        × IsPageOf s.pools p q pools
        × (handle rt cn ms http mc Route.validators r
            ≡ ok (json 200 (Payload.validator_page validators)))
        × IsPageOf s.validators p q validators
  unfolding handle handle_accounts handle_pools handle_validators
  state_pages r h p q asked exact lens low high lp kp lq kq few_accounts few_validators =
      let (s, at) = ((heights_served rt cn fuel n chain_id opts bound made).2 h).0 high in
      let counts = state_at-counts rt cn fuel n chain_id opts bound made h at in
      let parts = new_mock_chain_parts rt cn fuel n chain_id opts bound made in
      let (accounts, a, ia) =
        state_page Payload.account_page http.account_page_len http.accounts_page_name
          (λ t. t.accounts) r h p q asked exact lens.accounts low lp kp lq kq at
          (omega (arith, counts.0)) in
      let (pools, b, ib) =
        state_page Payload.pool_page http.pool_page_len http.pool_page_name (λ t. t.pools) r h p q
          asked exact lens.pools low lp kp lq kq at (omega (arith, counts.2, parts.7)) in
      let (validators, c, ic) =
        state_page Payload.validator_page http.validator_page_len http.validators_page_name
          (λ t. t.validators) r h p q asked exact lens.validators low lp kp lq kq at
          (omega (arith, counts.1)) in
      (s, accounts, pools, validators, at, a, ia, b, ib, c, ic)
