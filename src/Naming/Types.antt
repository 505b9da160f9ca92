-- ===== src/Naming/Types.antt =====
-- The struct types that the naming client writes and reads (naming/naming.go, common/uri.go).
use phabrik.Serialization.GoType.{
  GoType, w32, w64, string, guid, int, uint, ptr, slice, map, struct, nil, cons,
}

-- A struct of one field.
abbrev one : GoType → GoType
one t = struct (cons t nil)

-- The header of the activity id.
abbrev pub activity_type : GoType
activity_type = one (struct (cons guid (cons (uint w64) nil)))

-- ProtocolVersion
abbrev pub protocol_version_type : GoType
protocol_version_type = struct (cons (int w64) (cons (int w64) nil))

abbrev pub timeout_type : GoType
timeout_type = one (int w64)

abbrev pub identity_type : GoType
identity_type = struct (cons string (cons string nil))

-- The bodies of a ClientOperationFailure and of a ServiceNotificationReply.
abbrev pub failure_type : GoType
failure_type = one (int w64)

abbrev pub error_type : GoType
error_type = one (int w64)

-- Uri
abbrev pub uri_type : GoType
uri_type = struct (
    cons (int w64) (
      cons string (
        cons string (
          cons (int w64) (
            cons string (
              cons (int w32)
                (cons string (cons string (cons string (cons (slice string) nil))))))))))

-- ServiceNotificationFilter, with its flags.
abbrev pub filter_type : GoType
filter_type = struct (cons (uint w64) (cons uri_type (cons (one (uint w32)) nil)))

-- RegisterServiceNotificationFilterRequestBody
abbrev pub filter_body_type : GoType
filter_body_type = struct (cons string (cons (ptr filter_type) nil))

-- The body of the query, with the type of the keys of its map.
abbrev pub query_type : GoType
query_type = struct (cons (one (map (one string) string)) (cons string nil))

-- ApplicationQueryResult
abbrev pub application_type : GoType
application_type = struct (
    cons uri_type
      (cons string (cons string (cons (int w64) (cons (int w64) (cons (map string string) nil))))))

-- The result of the query.
abbrev pub query_result_type : GoType
query_result_type =
    struct (cons (int w32) (cons (ptr (one (slice application_type))) (cons (int w32) nil)))
