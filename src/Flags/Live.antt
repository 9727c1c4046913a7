-- ===== src/Flags/Live.antt =====
-- frontend/lib/sse.ts: the stream by which an open page hears of changes. `EventSource` is the
-- browser's; a message is what it brings to one of the two listeners.
use feature_flag_system.Prelude.{Text, codes, ◌++◌, Option, none, some}
use feature_flag_system.Sdk.Stream.{Message, flag_updated, flag_deleted}
use feature_flag_system.Flags.Queries.{Change, pushed_update, pushed_delete}

-- The address that `createSSEConnection` opens.
unfoldable pub stream_url : (url sdk_key : Text) → Text
stream_url url sdk_key = url ++ codes "/api/client/stream?key=" ++ sdk_key

-- The listeners, with the handlers that `useSSE` gives them: data that `JSON.parse` throws on
-- calls no handler.
unfoldable pub heard_change : Message → Option Change
heard_change (flag_updated id none) = none
heard_change (flag_updated id (some f)) = some pushed_update
heard_change (flag_deleted id none) = none
heard_change (flag_deleted id (some key)) = some pushed_delete
