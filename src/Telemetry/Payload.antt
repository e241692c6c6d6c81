-- ===== src/Telemetry/Payload.antt =====
-- telemetry.rs: the text of a trace, as JSON.
use marstack_container.Prelude.{ℕ, ◌+◌, ◌*◌, Option, none, some, [], ◌++◌}
use marstack_container.Std.Text.{Text, codes}
use marstack_container.Std.Decimal.{to_string}
use marstack_container.Rootfs.Overlay.{replace}

-- The backslash is replaced first.
unfoldable pub escape : Text → Text
unfolding replace
escape value =
    replace 10 (codes "\\n") (replace b'"' (codes "\\\"") (replace b'\\' (codes "\\\\") value))

unfoldable pub attribute : Text → Text → Text
unfolding escape
attribute key value =
    codes "{\"key\":\""
    ++ (key ++ (codes "\",\"value\":{\"stringValue\":\"" ++ (escape value ++ codes "\"}}")))

unfoldable pub parent_text : Option Text → Text
parent_text none = []
parent_text (some id) = codes "\"parentSpanId\":\"" ++ (id ++ codes "\",")

-- The times are nanoseconds since 1970.
unfoldable pub span : Text → Text → Option Text → Text → ℕ → ℕ → ℕ → Text → Text
unfolding attribute parent_text
span trace_id span_id parent name origin_nanos start_us end_us container_id =
    codes "{\"traceId\":\""
    ++ (trace_id
        ++ (codes "\",\"spanId\":\""
            ++ (span_id
                ++ (codes "\","
                    ++ (parent_text parent
                        ++ (codes "\"name\":\""
                            ++ (escape name
                                ++ (codes "\",\"kind\":1,\"startTimeUnixNano\":\""
                                    ++ (to_string (origin_nanos + start_us * 1_000)
                                        ++ (codes "\",\"endTimeUnixNano\":\""
                                            ++ (to_string (origin_nanos + end_us * 1_000)
                                                ++ (codes "\",\"attributes\":["
                                                    ++ (attribute (codes "container.id")
                                                          container_id
                                                        ++ codes "]}")))))))))))))

unfoldable pub resource_attributes : Text → Text → Text
unfolding attribute
resource_attributes version host =
    attribute (codes "service.name") (codes "mars")
    ++ (codes ","
        ++ (attribute (codes "service.version") version
            ++ (codes "," ++ attribute (codes "host.name") host)))

unfoldable pub body : Text → Text → Text → Text
unfolding resource_attributes
body version host spans =
    codes "{\"resourceSpans\":[{\"resource\":{\"attributes\":["
    ++ (resource_attributes version host
        ++ (codes "]},\"scopeSpans\":[{\"scope\":{\"name\":\"mars\",\"version\":\""
            ++ (version ++ (codes "\"},\"spans\":[" ++ (spans ++ codes "]}]}]}")))))
