-- ===== src/Rpc/Mux/Orders.antt =====
-- The order books that a built chain serves one by one.
use mathlib.Core.Path.{subst}
use canopy_rpc_mock.Base.{
  ℕ, ◌≤◌, ◌<◌, ◌^◌, ◌≡◌, ◌≢◌, refl, ap, ◌∙◌, ◌⊎◌, inl, inr, Bool-cases, false, Option, some, none,
  List, [], ◌∷◌, arith, Result, ok, ◌>>=◌, pos, ◌==◌,
}
use canopy_rpc_mock.Gen.Runtime.{Runtime}
use canopy_rpc_mock.Chain.Types.{SellOrder, OrderBook, OrderBooks}
use canopy_rpc_mock.Chain.Canopy.{Canopy}
use canopy_rpc_mock.Chain.MockChain.{MockChain, GenesisState, state_at}
use canopy_rpc_mock.Chain.IndexerBlob.{Marshal}
use canopy_rpc_mock.Chain.New.{ChainOption, new_mock_chain}
use canopy_rpc_mock.Chain.New.Served.{heights_served}
use canopy_rpc_mock.Chain.New.States.{state_at-IsSnapshot}
use canopy_rpc_mock.Rpc.OrderBooks.{normalize_order_books, normalize_books, normalize_orders}
use canopy_rpc_mock.Rpc.Http.{
  Http, Request, Response, Payload, IdHeightRequest, json, error, literal,
}
use canopy_rpc_mock.Rpc.Replies.{
  or_latest, id_request, find_book, book_reply, books_reply, state_reply,
}
use canopy_rpc_mock.Rpc.Routes.{handle_orders}
use canopy_rpc_mock.Rpc.Mux.{Route, handle}
use canopy_rpc_mock.Rpc.Mux.Pages.{or_latest_same}

-- No book of a list is of a chain.
abbrev pub NoBook : ℕ → List (Option OrderBook) → Type 0
NoBook id [] = Unit {0}
NoBook id (none ∷ books) = NoBook id books
NoBook id (some book ∷ books) = (book.chain_id ≢ id) × NoBook id books

-- The first book of a list that is not nil and is of a chain.
abbrev pub FirstBook : ℕ → List (Option OrderBook) → OrderBook → Type 0
FirstBook id [] book = ⊥
FirstBook id (none ∷ books) book = FirstBook id books book
FirstBook id (some first ∷ books) book =
    ((first ≡ book) × (first.chain_id ≡ id)) ⊎ ((first.chain_id ≢ id) × FirstBook id books book)

-- The second list has the orders of the first that are not nil, each once and in their order, and
-- each as it was but for its committee, which is the chain.
abbrev pub Copies : ℕ → List (Option SellOrder) → List (Option SellOrder) → Type 0
Copies id [] [] = Unit {0}
Copies id [] (copy ∷ copies) = ⊥
Copies id (none ∷ orders) copies = Copies id orders copies
Copies id (some order ∷ orders) [] = ⊥
Copies id (some order ∷ orders) (none ∷ copies) = ⊥
Copies id (some order ∷ orders) (some copy ∷ copies) =
    (copy ≡ record order { committee = id }) × Copies id orders copies

-- The answer for one chain's book among some books: a copy of the first, or that there is none.
abbrev pub IsBookReply : ℕ → List (Option OrderBook) → Result Response → Type 0
IsBookReply id books reply =
    ((source : OrderBook) × (book : OrderBook) × (reply
        ≡ ok (json 200 (Payload.order_books (some (record { order_books = some book ∷ [] })))))
      × FirstBook id books source
      × (book.chain_id ≡ id)
      × Copies id source.orders book.orders)
    ⊎ ((reply ≡ ok (error 404 (literal "order book not found"))) × NoBook id books)

-- What the loop finds in the copy of some books.
abbrev Found : ℕ → List (Option OrderBook) → Type 0
Found id books =
    ((source : OrderBook) × (book : OrderBook) × (find_book id (normalize_books books)
        ≡ ok (some book))
      × FirstBook id books source
      × (book.chain_id ≡ id)
      × Copies id source.orders book.orders)
    ⊎ ((find_book id (normalize_books books) ≡ ok none) × NoBook id books)

pub normalize_orders-Copies :
    (id : ℕ) (orders : List (Option SellOrder)) → Copies id orders (normalize_orders id orders)
unfolding normalize_orders
normalize_orders-Copies id [] = tt
normalize_orders-Copies id (none ∷ orders) = normalize_orders-Copies id orders
normalize_orders-Copies id (some order ∷ orders) = (refl, normalize_orders-Copies id orders)

find_book-later :
    (id : ℕ) (book : OrderBook) (books : List (Option OrderBook))
    → (book.chain_id == id) ≡ false
    → Found id books
    → Found id (some book ∷ books)
unfolding find_book normalize_books
find_book-later id book books other (inl (source, copy, found, first, same, copied)) =
    let differs : book.chain_id ≢ id = λ e. ground (arith, other, e) in
    inl (source, copy, rw other found, inr (differs, first), same, copied)
find_book-later id book books other (inr (nothing, absent)) =
    let differs : book.chain_id ≢ id = λ e. ground (arith, other, e) in
    inr (rw other nothing, (differs, absent))

find_book-Found : (id : ℕ) (books : List (Option OrderBook)) → Found id books
unfolding find_book normalize_books
find_book-Found id [] = inr (refl, tt)
find_book-Found id (none ∷ books) = find_book-Found id books
find_book-Found id (some book ∷ books) = elim (Bool-cases (book.chain_id == id)) [
  | inl same ↦
      let e : book.chain_id ≡ id = ground (arith, same) in
      let copied = normalize_orders-Copies book.chain_id book.orders in
      inl (
        book,
        record { chain_id = book.chain_id; orders = normalize_orders book.chain_id book.orders },
        rw same,
        inl (refl, e),
        e,
        subst (λ k. Copies k book.orders (normalize_orders book.chain_id book.orders)) e copied,
      )
  | inr other ↦ find_book-later id book books other (find_book-Found id books)
]

Found-IsBookReply :
    (id : ℕ) (books : List (Option OrderBook)) {reply : Result Response}
    → Found id books
    → ((found : Option OrderBook)
        → find_book id (normalize_books books) ≡ ok found
        → reply ≡ ok (book_reply found))
    → IsBookReply id books reply
Found-IsBookReply id books (inl (source, book, found, first, same, copied)) answers =
    inl (source, book, answers (some book) found, first, same, copied)
Found-IsBookReply id books (inr (nothing, absent)) answers = inr (answers none nothing, absent)

books_reply_lem :
    (id : ℕ) (books : OrderBooks)
    → 1 ≤ id
    → books_reply id (normalize_order_books (some books))
      ≡ (find_book id (normalize_books books.order_books) >>= (λ found. ok (book_reply found)))
unfolding books_reply normalize_order_books
books_reply_lem id books given = let asked : (id == 0) ≡ false = ground arith in rw asked

module _ (rt : Runtime) (cn : Canopy) (ms : Marshal) (http : Http) (fuel n chain_id : ℕ)
    (opts : List ChainOption) {mc : MockChain} (bound : n < 2 ^ 63)
    (made : new_mock_chain rt cn fuel (pos n) chain_id opts ≡ ok mc) where
  -- The order books of the state that a request means, as the handler answers with them.
  pub orders_route :
      (r : Request) {h id : ℕ} {s : GenesisState} {books : OrderBooks}
      → id_request http r ≡ record { height = h; id = id }
      → 1 ≤ h
      → state_at mc h ≡ some s
      → s.order_books ≡ some books
      → handle rt cn ms http mc Route.orders r ≡ books_reply id (normalize_order_books (some books))
  unfolding handle handle_orders
  orders_route r {h} {id} {s} {books} asked low at has =
      let reply =
        λ (i : ℕ) (s : GenesisState). books_reply i (normalize_order_books s.order_books) in
      ap (λ (q : IdHeightRequest). state_reply (reply q.id) (state_at mc (or_latest mc q.height)))
        asked
      ∙ ap (λ k. state_reply (reply id) (state_at mc k)) (or_latest_same mc h low)
      ∙ ap (λ o. state_reply (reply id) o) at
      ∙ ap (λ o. books_reply id (normalize_order_books o)) has

  -- On a chain that newMockChain returns for n < 2 ^ 63 blocks, a request for the order book of a
  -- chain, not 0, at height h, 1 ≤ h ≤ n, is answered with 200 and one book, a copy of the first book
  -- of that height's state that is not nil and is of the chain: it has exactly the orders of that book
  -- that are not nil, in their order and as they were but for their committee, which is the chain; or
  -- with 404, and then no book of that height's state that is not nil is of the chain.
  pub order_book_route :
      (r : Request) (h id : ℕ)
      → id_request http r ≡ record { height = h; id = id }
      → 1 ≤ h
      → h ≤ n
      → 1 ≤ id
      → (s : GenesisState) × (books : OrderBooks) × (state_at mc h ≡ some s)
        × (s.order_books ≡ some books)
        × IsBookReply id books.order_books (handle rt cn ms http mc Route.orders r)
  order_book_route r h id asked low high given =
      let (s, at) = ((heights_served rt cn fuel n chain_id opts bound made).2 h).0 high in
      let (books, has) = (state_at-IsSnapshot rt cn fuel n chain_id opts bound made h at).books in
      (
        s,
        books,
        at,
        has,
        Found-IsBookReply id books.order_books (find_book-Found id books.order_books) (λ found e.
            orders_route r asked low at has
            ∙ books_reply_lem id books given
            ∙ ap (λ m. m >>= (λ f. ok (book_reply f))) e),
      )
