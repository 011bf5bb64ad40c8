-- ===== src/Tests/Views.antt =====
-- LogBook.tsx, DiGraph.tsx, RdbViewer.tsx and the rows of unpack on concrete inputs.
use mulex_fk.Prelude.{
  replicate, ℕ, ◌≡◌, refl, arith, Bool, true, false, none, some, List, [], ◌∷◌, ◌++◌, map, ◌+◌, ◌-◌,
  ◌/◌, leb, ◌↔◌, All,
}
use mulex_fk.Prelude.Int.{pos}
use mulex_fk.Prelude.Keys.{number_key, list_key, int_key, same_int}
use mulex_fk.Prelude.Results.{ok, throw, type_error}
use mulex_fk.Convert.Names
use mulex_fk.Convert.Names.{native, generic}
use mulex_fk.Convert.Engine.{Text, int}
use mulex_fk.Convert.Bytes.{whole}
use mulex_fk.Calls.Jobs.{rpc}
use mulex_fk.Convert.Encode.{MxGenericType, from_data, str512, make_data}
use mulex_fk.Convert.Decode
use mulex_fk.Convert.Unpack.{Field, rows, unpack, number, text, bytes}
use mulex_fk.Convert.Unpack.Cells.{Cell, word, fixed, array}
use mulex_fk.Convert.Numbers.{i32}
use mulex_fk.Convert.Texts.{s512}
use mulex_fk.Convert.Unpack.Rows.{rows_bytes, IsRow, unpack-rows}
use mulex_fk.Stores.Sets
use mulex_fk.Calls.Servers.{Server, run}
use mulex_fk.Book.Posts.{LogBookPost}
use mulex_fk.Book.Drafts.{Draft}
use mulex_fk.Book.Context.{Book, list_page, deleted}
use mulex_fk.Book.Reading.{delete_posts}
use mulex_fk.Book.Deleting.{delete_request, verdicts}
use mulex_fk.Book.Deleted.{confirmed, unconfirmed, is_rejected, others, delete_posts-confirmed}
use mulex_fk.Book.Publishing.{post}
use mulex_fk.Book.Posted.{post-posted}
use mulex_fk.Graph.Edges.{Numbers, NodeProps, EdgeProps, Place, mount, on_node_change}
use mulex_fk.Graph.Drawn.{draw, moved_all, initial, touches}
use mulex_fk.Graph.Followed.{change_all, change_all-drawn}
use mulex_fk.Rdb.Shown.{KeyDisplay, select, on_metadata}
use mulex_fk.Rdb.Leaked.{watched, watched_after, visit, IsWatching, visit-watched}
use mulex_fk.Tests.Engines.{ascii, ascii_std}

-- A server that says yes to every call.
abbrev yes_to_all : Server
yes_to_all = record { State = Unit; reply = λ w q. (ok (from_data (whole (1 ∷ [])) native), w) }

abbrev a_post : ℕ → Bool → LogBookPost
a_post n chosen = record {
  id = pos n;
  selected = chosen;
  body = none;
  meta = [];
  title = [];
  user = [];
  date = [];
  file_types = [];
}

abbrev a_book : Book
a_book = record {
  page_posts = a_post 1 true ∷ (a_post 2 false ∷ (a_post 3 true ∷ []));
  new_post_page = list_page;
  read_page_id = none;
  num_posts = pos 3;
  query = [];
  selection = true;
  selected_ids = pos 1 ∷ (pos 3 ∷ []);
  toasts = [];
}

delete_posts-confirmed_example :
    let o = run yes_to_all (delete_posts ascii) a_book tt in
    (o.result ≡ ok tt)
    × (o.sent ≡ delete_request (pos 1) ∷ (delete_request (pos 3) ∷ []))
    × (o.state ≡ record a_book {
      page_posts = a_post 2 false ∷ [];
      selected_ids = [];
      selection = false;
      toasts = deleted 2 ∷ [];
    })
unfolding verdicts confirmed unconfirmed is_rejected others Sets.has same_int Decode.astype
    Decode.read_as
delete_posts-confirmed_example = delete_posts-confirmed ascii yes_to_all a_book tt

abbrev a_draft : Draft
a_draft = record {
  title = 104 ∷ [];
  body = 105 ∷ [];
  files = [];
  fid = 0;
  saved_title = some (104 ∷ []);
  saved_body = none;
  saved_files = some [];
}

-- The arguments of the post in their bytes.
abbrev post_args : List MxGenericType
post_args =
    from_data (whole (104 ∷ replicate 511 0)) native
    ∷ from_data (whole (1 ∷ 0 ∷ 0 ∷ 0 ∷ 0 ∷ 0 ∷ 0 ∷ 0 ∷ 105 ∷ [])) generic
    ∷ from_data (whole (1 ∷ 0 ∷ 0 ∷ 0 ∷ 0 ∷ 0 ∷ 0 ∷ 0 ∷ 123 ∷ [])) generic
    ∷ []

post-posted_example : run yes_to_all (post ascii (λ files. 123 ∷ [])) a_draft tt ≡ record {
  result = ok true;
  state = record a_draft { saved_title = none; saved_body = none; saved_files = none };
  world = tt;
  sent = rpc "mulex::LbkPostCreate" post_args native ∷ [];
}
unfolding str512 make_data Decode.astype Decode.read_as mulex_fk.Convert.Encode.from_value
    mulex_fk.Convert.Encode.value_bytes mulex_fk.Convert.Bytes.set_bytes
    mulex_fk.Convert.Bytes.le_bytes
post-posted_example = post-posted ascii (λ files. 123 ∷ []) yes_to_all a_draft tt

abbrev pixels : Numbers
pixels = record {
  Number = ℕ;
  zero_px = 0;
  plus = λ a b. a + b;
  minus = λ a b. a - b;
  half = λ a. a / 2;
  is_at_most = leb;
}

abbrev two_nodes : List (NodeProps ℕ)
two_nodes = record { x = 0; y = 0; id = 97 ∷ [] } ∷ (record { x = 100; y = 50; id = 98 ∷ [] } ∷ [])

abbrev one_edge : List EdgeProps
one_edge = record { from = 97 ∷ []; to = 98 ∷ []; label = none } ∷ []

abbrev one_change : List (Text × Place pixels)
one_change = (98 ∷ [], record { x = 30; y = 10; width = 8; height = 4 }) ∷ []

change_all-drawn_example :
    ((change_all pixels one_change (mount pixels two_nodes one_edge)).edges
      ≡ map (draw pixels (moved_all pixels one_change (initial pixels two_nodes))) one_edge)
    × ((id : Text) (p : Place pixels)
        → (on_node_change pixels id p
              (change_all pixels one_change (mount pixels two_nodes one_edge))
            ≡ throw type_error)
          ↔ (touches id one_edge ≡ false))
change_all-drawn_example = change_all-drawn pixels two_nodes one_edge one_change

abbrev closed : KeyDisplay
closed = record {
  selected = [];
  previous = [];
  is_active = false;
  path = [];
  name = [];
  type_name = Names.empty;
  value = [];
  size = 0;
  raw = [];
  is_array = false;
  last_resolve = true;
  asked = [];
}

closed-IsWatching : IsWatching closed
unfolding watched_after
closed-IsWatching = (refl, refl)

visit-watched_example :
    IsWatching (visit ((98 ∷ [], Names.uint8) ∷ []) closed)
    × (Sets.has
          (watched (
            visit
              ((98 ∷ [], Names.uint8) ∷ [])
              (on_metadata Names.uint8 (select [] (select (97 ∷ []) closed)))))
          []
        ≡ true)
visit-watched_example =
    visit-watched ((98 ∷ [], Names.uint8) ∷ []) closed (97 ∷ []) Names.uint8 closed-IsWatching

abbrev two_rows : List (List Cell)
two_rows =
    (word i32 (pos 7) ∷ (fixed s512 (104 ∷ []) ∷ (array (1 ∷ 2 ∷ []) ∷ [])))
    ∷ ((word i32 (pos 9) ∷ (fixed s512 [] ∷ (array [] ∷ []))) ∷ [])

abbrev post_types : List Names.TypeName
post_types = Names.str512 ∷ (Names.bytearray ∷ [])

abbrev read_rows : List (List (Field Unit))
read_rows =
    (number (int (pos 7)) ∷ (text (104 ∷ []) ∷ (bytes (1 ∷ 2 ∷ []) ∷ [])))
    ∷ ((number (int (pos 9)) ∷ (text [] ∷ (bytes [] ∷ []))) ∷ [])

abbrev no_size : List ℕ
no_size = 0 ∷ 0 ∷ 0 ∷ 0 ∷ 0 ∷ 0 ∷ 0 ∷ 0 ∷ []

two_rows_fit : All (IsRow ascii ascii_std (Names.int32 ∷ post_types)) two_rows
two_rows_fit = (
  (refl, (omega arith, ((tt, ((λ h. omega arith), tt), omega arith), (omega arith, tt)))),
  ((refl, (omega arith, ((tt, tt, omega arith), (omega arith, tt)))), tt),
)

unpack-rows_example :
    (unpack ascii 3
        (from_data (whole (no_size ++ rows_bytes ascii two_rows)) generic)
        (Names.int32 ∷ post_types)
      ≡ rows read_rows)
    × (unpack ascii 3
          (from_data (whole (rows_bytes ascii two_rows)) native)
          (Names.int32 ∷ post_types)
        ≡ rows read_rows)
unpack-rows_example =
    unpack-rows ascii ascii_std Names.int32 post_types two_rows no_size 3 two_rows_fit (omega arith)
      refl (omega arith)
