-- ===== src/Tests/Deliveries.antt =====
-- A delivery of one item is created, sent off and completed.
use pasalho.Prelude.{◌≡◌, refl, none, some, [], ◌∷◌, map, find_row, update_row}
use pasalho.Prelude.Result.{transaction, committed}
use pasalho.Deliveries.{
  DeliveryStatus, Delivery, Fleet, DeliveryDto, create, create_in, item_rows, change, dispatch,
  complete, mark_found, mark_item_delivered,
}
use pasalho.Deliveries.Life.{
  AreSound, Reach, step_create, step_dispatch, step_mark, step_complete, reachable-AreSound,
}

abbrev empty : Fleet
empty = record { deliveries = []; audit = []; next_id = 10; now = 5 }

abbrev dto : DeliveryDto
dto = record {
  branch = 7;
  route = none;
  vehicle_ref = some "BA 1 KHA 2345";
  driver_name = none;
  scheduled_at = none;
  notes = none;
  items = record { retailer = 4; invoice = some 8; order = none; notes = none } ∷ [];
}

abbrev created : Fleet
created = (create dto 9 empty).1

abbrev sent : Fleet
sent = (dispatch 10 9 created).1

abbrev marked : Fleet
marked = (mark_item_delivered 10 11 none sent).1

abbrev done : Fleet
done = (complete 10 9 marked).1

done-delivered : map (λ (d : Delivery). d.status) done.deliveries ≡ DeliveryStatus.delivered ∷ []
unfolding create create_in item_rows committed transaction change dispatch complete
    mark_item_delivered mark_found find_row update_row
done-delivered = refl

reachable-AreSound_example : AreSound done
reachable-AreSound_example = reachable-AreSound tt (
    Reach.next
      (Reach.next
        (Reach.next (Reach.next Reach.here (step_create dto 9 empty)) (step_dispatch 10 9 created))
        (step_mark 10 11 none sent))
      (step_complete 10 9 marked))
