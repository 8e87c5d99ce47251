-- ===== src/Connection/Receivers.antt =====
-- connection.c: the list of receiver connections as a table.
use project_2_congest.Base.{
  ◌+◌, sym, ℕ, suc, ◌≡◌, ◌≤◌, refl, ◌∙◌, Option, none, some, List, [], ◌∷◌, length, arith,
}
use project_2_congest.Connection.{ReceiverConnection}
use project_2_congest.Connection.Receiver.{
  search_receiver_connection, store_receiver_connection, remove_receiver_connection,
  get_receiver_connection_number,
}
use project_2_congest.Connection.Table.{
  total, total-replace, total-erase, find-le-total, Table, Follows, find, replace, erase,
  Table-Follows, Follows-refl, find-Good, erase-Follows, replace-Follows, Table-cons,
  length-Follows,
}

-- The list of chunks is not empty: `chunk_list_head` is not NULL.
abbrev pub HasChunk : ReceiverConnection → Type 0
HasChunk r = 1 ≤ length r.chunk_list

abbrev pub key : ReceiverConnection → ℕ
key p = p.address

abbrev pub peer : ReceiverConnection → Option ℕ
peer p = p.provider

abbrev pub Receivers : ℕ → List ReceiverConnection → Type 0
Receivers = Table key peer HasChunk

abbrev pub ReceiversFollow : List ReceiverConnection → List ReceiverConnection → Type 0
ReceiversFollow = Follows key peer HasChunk

pub search-eq-find :
    (ps : List ReceiverConnection) (r : Option ℕ)
    → search_receiver_connection ps r ≡ find key peer HasChunk ps r
unfolding search_receiver_connection find
search-eq-find [] r = refl
search-eq-find (p ∷ ps) r = rw (search-eq-find ps r) refl

pub store-eq-replace :
    (ps : List ReceiverConnection) (d : ReceiverConnection)
    → store_receiver_connection ps d ≡ replace key peer HasChunk ps d
unfolding store_receiver_connection replace
store-eq-replace [] d = refl
store-eq-replace (p ∷ ps) d = rw (store-eq-replace ps d) refl

pub remove-eq-erase :
    (ps : List ReceiverConnection) (d : ReceiverConnection)
    → remove_receiver_connection ps d ≡ erase key peer HasChunk ps d
unfolding remove_receiver_connection erase
remove-eq-erase [] d = refl
remove-eq-erase (p ∷ ps) d = rw (remove-eq-erase ps d) refl

pub number-eq-length :
    (ps : List ReceiverConnection) → get_receiver_connection_number ps ≡ length ps
unfolding get_receiver_connection_number
number-eq-length [] = refl
number-eq-length (p ∷ ps) = omega (arith, number-eq-length ps)

abbrev pub total_of : (ReceiverConnection → ℕ) → List ReceiverConnection → ℕ
total_of = total key peer HasChunk

pub search-le-total :
    (f : ReceiverConnection → ℕ) (xs : List ReceiverConnection) (r : Option ℕ)
    (c : ReceiverConnection)
    → search_receiver_connection xs r ≡ some c
    → f c ≤ total_of f xs
search-le-total f xs r c e =
    find-le-total key peer HasChunk f xs r c (sym (search-eq-find xs r) ∙ e)

module _ (bound : ℕ) (xs : List ReceiverConnection) (t : Receivers bound xs) where
  pub total-store :
      (f : ReceiverConnection → ℕ) (r : Option ℕ) (c d : ReceiverConnection)
      → search_receiver_connection xs r ≡ some c
      → d.address ≡ c.address
      → total_of f (store_receiver_connection xs d) + f c ≡ total_of f xs + f d
  total-store f r c d e k =
      rw (store-eq-replace xs d)
        (total-replace key peer HasChunk f bound xs r c d t (sym (search-eq-find xs r) ∙ e) k)

  pub total-remove :
      (f : ReceiverConnection → ℕ) (r : Option ℕ) (c : ReceiverConnection)
      → search_receiver_connection xs r ≡ some c
      → total_of f (remove_receiver_connection xs c) + f c ≡ total_of f xs
  total-remove f r c e =
      rw (remove-eq-erase xs c)
        (total-erase key peer HasChunk f bound xs r c t (sym (search-eq-find xs r) ∙ e))

  pub Receivers-Follow : {ys : List ReceiverConnection} → ReceiversFollow ys xs → Receivers bound ys
  Receivers-Follow f = Table-Follows key peer HasChunk bound f t

  pub Receivers-refl : ReceiversFollow xs xs
  Receivers-refl = Follows-refl key peer HasChunk bound xs t

  pub search-HasChunk :
      (r : Option ℕ) (c : ReceiverConnection)
      → search_receiver_connection xs r ≡ some c
      → HasChunk c
  search-HasChunk r c e = find-Good key peer HasChunk bound xs r c t (sym (search-eq-find xs r) ∙ e)

  pub remove-ReceiversFollow :
      (c : ReceiverConnection) → ReceiversFollow (remove_receiver_connection xs c) xs
  remove-ReceiversFollow c =
      rw (remove-eq-erase xs c) (erase-Follows key peer HasChunk bound xs c t)

  pub store-ReceiversFollow :
      (r : Option ℕ) (c d : ReceiverConnection)
      → search_receiver_connection xs r ≡ some c
      → d.address ≡ c.address
      → d.provider ≡ c.provider
      → HasChunk d
      → ReceiversFollow (store_receiver_connection xs d) xs
  store-ReceiversFollow r c d e k p g =
      rw (store-eq-replace xs d)
        (replace-Follows key peer HasChunk bound xs r c d t (sym (search-eq-find xs r) ∙ e) k p g)

  pub Receivers-cons :
      (c : ReceiverConnection)
      → HasChunk c
      → c.address ≡ bound
      → search_receiver_connection xs c.provider ≡ none
      → Receivers (suc bound) (c ∷ xs)
  Receivers-cons c g k e =
      Table-cons key peer HasChunk bound xs c t g k (sym (search-eq-find xs c.provider) ∙ e)

pub length-ReceiversFollow :
    {xs ys : List ReceiverConnection} → ReceiversFollow ys xs → length ys ≤ length xs
length-ReceiversFollow f = length-Follows key peer HasChunk f
