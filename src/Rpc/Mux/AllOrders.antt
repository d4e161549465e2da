-- ===== src/Rpc/Mux/AllOrders.antt =====
-- The order books that a built chain serves all at once, to a request that names no chain.
use canopy_rpc_mock.Base.{
  ℕ, ◌≤◌, ◌<◌, ◌^◌, ◌≡◌, refl, ◌∙◌, Option, some, none, List, [], ◌∷◌, ok, pos,
}
use canopy_rpc_mock.Gen.Runtime.{Runtime}
use canopy_rpc_mock.Chain.Types.{OrderBook, OrderBooks}
use canopy_rpc_mock.Chain.Canopy.{Canopy}
use canopy_rpc_mock.Chain.MockChain.{MockChain, GenesisState, state_at}
use canopy_rpc_mock.Chain.IndexerBlob.{Marshal}
use canopy_rpc_mock.Chain.New.{ChainOption, new_mock_chain}
use canopy_rpc_mock.Chain.New.Served.{heights_served}
use canopy_rpc_mock.Chain.New.States.{state_at-IsSnapshot}
use canopy_rpc_mock.Rpc.OrderBooks.{normalize_order_books, normalize_books}
use canopy_rpc_mock.Rpc.Http.{Http, Request, Payload, json}
use canopy_rpc_mock.Rpc.Replies.{id_request, books_reply}
use canopy_rpc_mock.Rpc.Mux.{Route, handle}
use canopy_rpc_mock.Rpc.Mux.Orders.{Copies, normalize_orders-Copies, orders_route}

-- The second list has the books of the first that are not nil, each once and in their order, of the
-- same chain and with copies of its orders.
abbrev pub BookCopies : List (Option OrderBook) → List (Option OrderBook) → Type 0
BookCopies [] [] = Unit {0}
BookCopies [] (copy ∷ copies) = ⊥
BookCopies (none ∷ books) copies = BookCopies books copies
BookCopies (some book ∷ books) [] = ⊥
BookCopies (some book ∷ books) (none ∷ copies) = ⊥
BookCopies (some book ∷ books) (some copy ∷ copies) =
    (copy.chain_id ≡ book.chain_id)
    × Copies book.chain_id book.orders copy.orders
    × BookCopies books copies

normalize_books-BookCopies :
    (books : List (Option OrderBook)) → BookCopies books (normalize_books books)
unfolding normalize_books
normalize_books-BookCopies [] = tt
normalize_books-BookCopies (none ∷ books) = normalize_books-BookCopies books
normalize_books-BookCopies (some book ∷ books) =
    (refl, normalize_orders-Copies book.chain_id book.orders, normalize_books-BookCopies books)

books_reply_all :
    (books : OrderBooks)
    → books_reply 0 (normalize_order_books (some books))
      ≡ ok (
          json 200 (
            Payload.order_books
              (some (record { order_books = normalize_books books.order_books }))))
unfolding books_reply normalize_order_books
books_reply_all books = refl

module _ (rt : Runtime) (cn : Canopy) (ms : Marshal) (http : Http) (fuel n chain_id : ℕ)
    (opts : List ChainOption) {mc : MockChain} (bound : n < 2 ^ 63)
    (made : new_mock_chain rt cn fuel (pos n) chain_id opts ≡ ok mc) where
  -- On a chain that newMockChain returns for n < 2 ^ 63 blocks, a request for order books that names
  -- chain 0, at height h, 1 ≤ h ≤ n, is answered with 200 and exactly the books of that height's state
  -- that are not nil, in their order, each of its own chain and with exactly its orders that are not
  -- nil, in their order and as they were but for their committee, which is the chain of the book.
  pub all_orders_route :
      (r : Request) (h : ℕ)
      → id_request http r ≡ record { height = h; id = 0 }
      → 1 ≤ h
      → h ≤ n
      → (s : GenesisState) × (books : OrderBooks) × (copies : OrderBooks) × (state_at mc h ≡ some s)
        × (s.order_books ≡ some books)
        × (handle rt cn ms http mc Route.orders r
            ≡ ok (json 200 (Payload.order_books (some copies))))
        × BookCopies books.order_books copies.order_books
  all_orders_route r h asked low high =
      let (s, at) = ((heights_served rt cn fuel n chain_id opts bound made).2 h).0 high in
      let (books, has) = (state_at-IsSnapshot rt cn fuel n chain_id opts bound made h at).books in
      (
        s,
        books,
        record { order_books = normalize_books books.order_books },
        at,
        has,
        orders_route rt cn ms http fuel n chain_id opts bound made r asked low at has
            ∙ books_reply_all books,
        normalize_books-BookCopies books.order_books,
      )
