-- ===== src/Rpc/OrderBooks.antt =====
-- normalizeOrderBooks of rpc/server_routes.go: the copy of the order books that a handler answers with.
use mathlib.Core.Path.{ap₂}
use canopy_rpc_mock.Base.{ℕ, ◌≡◌, refl, sym, ap, Option, none, some, List, [], ◌∷◌}
use canopy_rpc_mock.Chain.Types.{SellOrder, OrderBook, OrderBooks}

-- the inner loop; proto.Clone copies the order, whose committee alone is then changed
unfoldable pub normalize_orders : ℕ → List (Option SellOrder) → List (Option SellOrder)
normalize_orders chain_id [] = []
normalize_orders chain_id (none ∷ orders) = normalize_orders chain_id orders
normalize_orders chain_id (some order ∷ orders) =
    some (record order { committee = chain_id }) ∷ normalize_orders chain_id orders

-- the outer loop
unfoldable pub normalize_books : List (Option OrderBook) → List (Option OrderBook)
normalize_books [] = []
normalize_books (none ∷ books) = normalize_books books
normalize_books (some book ∷ books) =
    some (record { chain_id = book.chain_id; orders = normalize_orders book.chain_id book.orders })
    ∷ normalize_books books

unfoldable pub normalize_order_books : Option OrderBooks → Option OrderBooks
normalize_order_books none = none
normalize_order_books (some src) = some (record { order_books = normalize_books src.order_books })

-- Every order is there and has the book's chain as its committee.
abbrev pub AllFiled : ℕ → List (Option SellOrder) → Type 0
AllFiled chain_id [] = Unit
AllFiled chain_id (none ∷ orders) = ⊥
AllFiled chain_id (some order ∷ orders) = (order.committee ≡ chain_id) × AllFiled chain_id orders

abbrev pub AllClean : List (Option OrderBook) → Type 0
AllClean [] = Unit
AllClean (none ∷ books) = ⊥
AllClean (some book ∷ books) = AllFiled book.chain_id book.orders × AllClean books

normalize_orders-AllFiled :
    (chain_id : ℕ) (orders : List (Option SellOrder))
    → AllFiled chain_id (normalize_orders chain_id orders)
unfolding normalize_orders
normalize_orders-AllFiled chain_id [] = tt
normalize_orders-AllFiled chain_id (none ∷ orders) = normalize_orders-AllFiled chain_id orders
normalize_orders-AllFiled chain_id (some order ∷ orders) =
    (refl, normalize_orders-AllFiled chain_id orders)

-- The order books that normalizeOrderBooks returns have no nil book and no nil order, and every order
-- has the chain of its book as its committee.
pub normalize_books-AllClean : (books : List (Option OrderBook)) → AllClean (normalize_books books)
unfolding normalize_books
normalize_books-AllClean [] = tt
normalize_books-AllClean (none ∷ books) = normalize_books-AllClean books
normalize_books-AllClean (some book ∷ books) =
    (normalize_orders-AllFiled book.chain_id book.orders, normalize_books-AllClean books)

normalize_orders-clean :
    (chain_id : ℕ) (orders : List (Option SellOrder))
    → AllFiled chain_id orders
    → normalize_orders chain_id orders ≡ orders
unfolding normalize_orders
normalize_orders-clean chain_id [] h = refl
normalize_orders-clean chain_id (none ∷ orders) h = absurd h
normalize_orders-clean chain_id (some order ∷ orders) (e, h) =
    ap₂ (λ i rest. some (record order { committee = i }) ∷ rest) (sym e)
      (normalize_orders-clean chain_id orders h)

normalize_books-clean :
    (books : List (Option OrderBook)) → AllClean books → normalize_books books ≡ books
unfolding normalize_books
normalize_books-clean [] h = refl
normalize_books-clean (none ∷ books) h = absurd h
normalize_books-clean (some book ∷ books) (e, h) =
    ap₂ (λ orders rest. some (record { chain_id = book.chain_id; orders = orders }) ∷ rest)
      (normalize_orders-clean book.chain_id book.orders e) (normalize_books-clean books h)

-- Normalizing order books that were normalized before changes nothing.
pub normalize_order_books_idem :
    (src : Option OrderBooks)
    → normalize_order_books (normalize_order_books src) ≡ normalize_order_books src
unfolding normalize_order_books
normalize_order_books_idem none = refl
normalize_order_books_idem (some src) =
    ap (λ books. some (record { order_books = books }))
      (normalize_books-clean (normalize_books src.order_books)
        (normalize_books-AllClean src.order_books))
