-- ===== src/Pagination/Tests.antt =====
-- A request for too many rows.
use feedbase_backend.Base.{◌≡◌, ◌⊎◌, false, [], none, some}
use feedbase_backend.Base.Int.{pos}
use feedbase_backend.Env.{defaults}
use feedbase_backend.Text.{codes}
use feedbase_backend.Pagination.{Incoming, Page, pagination_data}
use feedbase_backend.Pagination.Bounds.{IsGood, IsSafe, pagination_data_lem}

abbrev greedy : Incoming
greedy = record {
  items_per_page = record { is_nan = false; parsed = some (pos 1000000) };
  current_page_number = record { is_nan = false; parsed = some (pos 3) };
  sort_order = some (codes "asc");
  filter_by = [];
  sort_by = [];
}

pagination_data_lem_example :
    ((pagination_data defaults greedy ≡ none) × ¬ IsGood greedy)
    ⊎ ((p : Page) × (pagination_data defaults greedy ≡ some p)
        × IsGood greedy
        × IsSafe defaults greedy p)
pagination_data_lem_example = pagination_data_lem defaults greedy
